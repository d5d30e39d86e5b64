-- ===== src/Vmm.antt =====
-- The virtual memory manager (kernel/mm/vmm.cpp): page tables of four levels, as 64-bit words in
-- memory, over any frame allocator.
pub mod Words
pub mod Tree
pub mod Create
pub mod Walk
pub mod Store
pub mod Mapped
pub mod Ranges
pub mod RoundTrip
pub mod Allocators
pub mod Switch
pub mod Spent
pub mod Refused
pub mod Requests
pub mod Direct
use nokernel.Prelude.{
  ℕ, zero, suc, ◌+◌, ◌-◌, ◌*◌, ◌/◌, ◌%◌, ◌^◌, Bool, true, false, not, ◌&&◌, ◌||◌, Option, none,
  some, List, [], ◌∷◌, ltb, leb, ◌==◌, if◌then◌else◌, bit_and, bit_or,
}
use nokernel.Outcome.{Outcome, ok, ◌>>=◌, assert}
use nokernel.Word.{u64, sub64, align_up, ◌>>◌}
use nokernel.Boot.{BootInfo, EfiMemoryDescriptor, descriptors}
use nokernel.Pmm.{frame_size}

abbrev pub present : ℕ
present = 2 ^ 0

abbrev pub writable : ℕ
writable = 2 ^ 1

abbrev pub hhdm_offset : ℕ
hhdm_offset = 0xffff_8000_0000_0000

abbrev pub addr_mask : ℕ
addr_mask = 0x000f_ffff_ffff_f000

-- `virt >> (12 + 9 * level)` and the low nine bits of it.
unfoldable pub index : ℕ → ℕ → ℕ
index virt level = bit_and (virt >> (12 + 9 * level)) 0x1ff

abbrev pub is_present : ℕ → Bool
is_present entry = not (bit_and entry present == 0)

-- The words by address, `pml4Phys`, `physOffset`, and the state of the frame allocator. The address
-- of entry `i` of a table is that of the table and eight times `i`.
module _ {A : Type 0} (alloc_frame : A → ℕ × A) where
  pub record Vmm : Type 0 where
    pub words : ℕ → ℕ
    pub pml4_phys : ℕ
    pub phys_offset : ℕ
    pub frames : A

  unfoldable pub phys_to_virt : Vmm → ℕ → ℕ
  phys_to_virt v phys = u64 (phys + v.phys_offset)

  unfoldable pub store_word : ℕ → ℕ → Vmm → Vmm
  store_word a value v = record v { words = λ x. if x == a then value else v.words x }

  -- The `memset` of a frame to zeros.
  unfoldable pub clear_frame : ℕ → Vmm → Vmm
  clear_frame a v = record v {
    words = λ x. if leb a x && ltb x (a + frame_size) then 0 else v.words x;
  }

  -- The table behind an entry, or `none` for `nullptr`.
  unfoldable pub next_table : Vmm → ℕ → ℕ → Bool → Option ℕ × Vmm
  next_table v table i create =
      let entry = table + 8 * i in
      if is_present (v.words entry)
      then (some (phys_to_virt v (bit_and (v.words entry) addr_mask)), v)
      else (if not create
          then (none, v)
          else (let (frame, frames) = alloc_frame v.frames in
              let v' = record v { frames = frames } in
              if frame == 0
              then (none, v')
              else (let cleared = clear_frame (phys_to_virt v' frame) v' in
                  let linked = store_word entry (bit_or (bit_or frame present) writable) cleared in
                  (some (phys_to_virt linked (bit_and (linked.words entry) addr_mask)), linked))))

  -- The levels from `level` down to 1, and the entry in the last table.
  unfoldable pub walk : ℕ → Vmm → ℕ → ℕ → Bool → Option ℕ × Vmm
  walk zero v table virt create = (some (table + 8 * index virt 0), v)
  walk (suc level) v table virt create =
      let (next, v') = next_table v table (index virt (suc level)) create in
      elim next [ none ↦ (none, v') | some table' ↦ walk level v' table' virt create ]

  unfoldable pub find_entry : Vmm → ℕ → Bool → Option ℕ × Vmm
  find_entry v virt create = walk 3 v (phys_to_virt v v.pml4_phys) virt create

  -- The processor's cache of translations is not part of the state.
  unfoldable pub unmap : Vmm → ℕ → Vmm
  unmap v virt =
      let (entry, v') = find_entry v virt false in
      elim entry [ none ↦ v' | some a ↦ store_word a 0 v' ]

  unfoldable pub unmap_range : ℕ → Vmm → ℕ → Vmm
  unmap_range zero v virt = v
  unmap_range (suc count) v virt = unmap_range count (unmap v virt) (u64 (virt + frame_size))

  unfoldable pub map_page : Vmm → ℕ → ℕ → ℕ → Bool × Vmm
  map_page v virt phys flags =
      let (entry, v') = find_entry v virt true in
      elim entry [
        | none ↦ (false, v')
        | some a ↦
            if is_present (v'.words a)
            then (false, v')
            else (true, store_word a (bit_or (bit_or (bit_and phys addr_mask) flags) present) v')
      ]

  -- `rounds` rounds from page `i` on; `phys` is that of page `i`.
  unfoldable pub map_loop : ℕ → Vmm → ℕ → ℕ → ℕ → ℕ → Bool × Vmm
  map_loop zero v virt phys i flags = (true, v)
  map_loop (suc rounds) v virt phys i flags =
      let (mapped, v') = map_page v (u64 (virt + i * frame_size)) phys flags in
      let rest = map_loop rounds v' virt (u64 (phys + frame_size)) (i + 1) flags in
      if mapped then rest else (false, unmap_range i v' virt)

  unfoldable pub map_range : Vmm → ℕ → ℕ → ℕ → ℕ → Bool × Vmm
  map_range v virt phys count flags = map_loop count v virt phys 0 flags

  -- The entry may have been found without a change of the tables.
  unfoldable pub translate : Vmm → ℕ → ℕ
  translate v virt =
      let (entry, v') = find_entry v virt false in
      elim entry [
        | none ↦ 0
        | some a ↦
            if is_present (v'.words a)
            then u64 (bit_and (v'.words a) addr_mask + bit_and virt 0xfff)
            else 0
      ]

  unfoldable pub map_both : Vmm → ℕ → ℕ → Vmm
  map_both v phys count =
      let v' = if not (phys == 0) then (map_range v phys phys count writable).1 else v in
      (map_range v' (u64 (phys + hhdm_offset)) phys count writable).1

  unfoldable pub map_all : List EfiMemoryDescriptor → Vmm → Vmm
  map_all [] v = v
  map_all (d ∷ ds) v = map_all ds (map_both v d.physical_start d.number_of_pages)

  -- Once cr3 is loaded, pointers go through the direct map: the word at an address is the one that
  -- stood, before, at the address of the same place in memory.
  unfoldable pub init : BootInfo → Vmm → Outcome Vmm
  init info v =
      let (frame, frames) = alloc_frame v.frames in
      assert (not (frame == 0)) >>= λ _.
      let started = record v { pml4_phys = frame; frames = frames } in
      let cleared = clear_frame (phys_to_virt started frame) started in
      descriptors info >>= λ ds.
      let fb_pages = align_up info.fb.size frame_size / frame_size in
      let mapped = map_both (map_all ds cleared) info.fb.base fb_pages in
      ok (record mapped {
        phys_offset = hhdm_offset;
        words = λ a. mapped.words (u64 (sub64 a hhdm_offset + mapped.phys_offset));
      })
