-- ===== src/Vmm/Direct.antt =====
-- What `init` of kernel/mm/vmm.cpp maps: frames at their own address and in the direct map.
use nokernel.Prelude.{
  ℕ, suc, ◌+◌, ◌*◌, ◌/◌, ◌%◌, ◌^◌, ◌<◌, Bool, true, false, not, Option, none, some, List, [], ◌∷◌,
  ◌≡◌, ◌≢◌, ◌==◌, refl, ap, ◌∙◌, if◌then◌else◌, inl, arith,
}
use nokernel.Outcome.{ok}
use nokernel.Word.{u64, align_up}
use nokernel.Boot.{BootInfo, EfiMemoryDescriptor, descriptors}
use nokernel.Pmm.{frame_size}
use nokernel.Vmm
use nokernel.Vmm.Words.{index-lt, present_zero}
use nokernel.Vmm.Tree.{IsAllocator, read, read_off, mapped, IsTree}
use nokernel.Vmm.Mapped.{HasTree}
use nokernel.Vmm.Switch.{before, switched, switched-IsTree, switched-mapped}
use nokernel.Vmm.Requests.{Request, asked_both, asked, Holds, Holds-same, map_range-Holds}

-- The descriptors start in memory.
unfoldable pub AllFit : List EfiMemoryDescriptor → Type 0
AllFit [] = Unit {0}
AllFit (d ∷ ds) = (d.physical_start < 2 ^ 64) × AllFit ds

module _ {A : Type 0} {alloc_frame : A → ℕ × A} (q : IsAllocator alloc_frame) where
  request_same :
      (v : Vmm.Vmm alloc_frame) (r : Request) (rs : List Request)
      → Holds q v rs
      → r.virt < 2 ^ 64
      → r.phys < 2 ^ 64
      → (b : Bool)
      → Holds q
          (if b then (Vmm.map_range alloc_frame v r.virt r.phys r.count Vmm.writable).1 else v)
          (if b then r ∷ rs else rs)
  request_same v r rs h small_virt small true = map_range-Holds q v r rs h small_virt small
  request_same v r rs h small_virt small false = h

  request_both :
      (v : Vmm.Vmm alloc_frame) (phys count : ℕ) (rs : List Request)
      → Holds q v rs
      → phys < 2 ^ 64
      → Holds q (Vmm.map_both alloc_frame v phys count) (asked_both phys count rs)
  unfolding Vmm.map_both
  request_both v phys count rs h small =
      map_range-Holds q
        (if not (phys == 0)
          then (Vmm.map_range alloc_frame v phys phys count Vmm.writable).1
          else v)
        (record { virt = u64 (phys + Vmm.hhdm_offset); phys = phys; count = count })
        (if not (phys == 0) then record { virt = phys; phys = phys; count = count } ∷ rs else rs)
        (request_same v (record { virt = phys; phys = phys; count = count }) rs h small small
          (not (phys == 0)))
        (omega arith) small

  request_all :
      (ds : List EfiMemoryDescriptor) (v : Vmm.Vmm alloc_frame) (rs : List Request)
      → Holds q v rs
      → AllFit ds
      → Holds q (Vmm.map_all alloc_frame ds v) (asked ds rs)
  unfolding Vmm.map_all AllFit
  request_all [] v rs h fit = h
  request_all (d ∷ ds) v rs h fit =
      request_all ds (Vmm.map_both alloc_frame v d.physical_start d.number_of_pages)
        (asked_both d.physical_start d.number_of_pages rs)
        (request_both v d.physical_start d.number_of_pages rs h fit.0) fit.1

  Holds-switched :
      (v : Vmm.Vmm alloc_frame) (rs : List Request)
      → Holds q v rs
      → Holds q
          (record v {
            phys_offset = Vmm.hhdm_offset;
            words = λ a. v.words (before v.phys_offset a);
          })
          rs
  unfolding HasTree
  Holds-switched v rs h =
      let (role, tree) = h.tree in
      Holds-same q v (switched q v role tree) rs (_, switched-IsTree q v role tree)
        (switched-mapped q v role tree) (λ e. e) h

  -- The tables with an empty root.
  module _ (v : Vmm.Vmm alloc_frame) (sound : q.valid v.frames) (aligned : v.phys_offset % 4096 ≡ 0)
      (granted : (alloc_frame v.frames).0 ≢ 0) where
    abbrev frame : ℕ
    frame = (alloc_frame v.frames).0

    abbrev top : ℕ
    top = u64 (frame + v.phys_offset)

    -- After the first frame is taken and cleared.
    abbrev empty : Vmm.Vmm alloc_frame
    empty =
        let started : Vmm.Vmm alloc_frame = record v {
          pml4_phys = frame;
          frames = (alloc_frame v.frames).1;
        } in
        Vmm.clear_frame alloc_frame (Vmm.phys_to_virt alloc_frame started frame) started

    abbrev only : ℕ → Option (ℕ × ℕ)
    only t = if t == top then some (3, 0) else none

    frame_lem : (frame % 4096 ≡ 0) × (frame < 2 ^ 52)
    frame_lem = q.frame v.frames frame sound (q.granted v.frames sound granted)

    only_top : (t : ℕ) (r : ℕ × ℕ) → only t ≡ some r → t ≡ top
    only_top t r h = ground (arith)

    empty_words : (i : ℕ) → i < 512 → empty.words (top + 8 * i) ≡ 0
    unfolding Vmm.clear_frame Vmm.phys_to_virt
    empty_words i hi = ground arith

    empty_off :
        (t i : ℕ) (r : ℕ × ℕ)
        → only t ≡ some r
        → i < 512
        → Vmm.is_present (empty.words (t + 8 * i)) ≡ false
    empty_off t i r h hi =
        ap (λ (y : ℕ). Vmm.is_present (empty.words (y + 8 * i))) (only_top t r h)
        ∙ ap Vmm.is_present (empty_words i hi)
        ∙ present_zero

    only_spare : (f : ℕ) → q.free empty.frames f → only (u64 (f + v.phys_offset)) ≡ none
    unfolding Vmm.clear_frame
    only_spare f free =
        let (was, other) = q.left v.frames f sound free in
        let apart : u64 (f + v.phys_offset) ≢ top =
          λ e. other (omega (arith, e, q.frame v.frames f sound was, frame_lem)) in
        ground arith

    empty-none : (x : ℕ) → mapped q empty x ≡ none
    unfolding mapped Vmm.clear_frame
    empty-none x =
        read_off empty.words v.phys_offset 2 top x
          (empty_off top (Vmm.index x 3) (3, 0) (ground arith) (index-lt x 3))

    empty-IsTree : IsTree q empty only
    unfolding Vmm.clear_frame Vmm.phys_to_virt
    empty-IsTree = record {
      sound = q.kept v.frames sound;
      top = ground arith;
      offset_aligned = aligned;
      aligned = λ t r h. omega (arith, only_top t r h, frame_lem, aligned);
      linked = λ t level p i h hi on. absurd (cc (on, empty_off t i (suc level, p) h hi));
      spare = λ f free. only_spare f free;
    }

    empty-Holds : Holds q empty []
    unfolding HasTree
    empty-Holds = record {
      tree = (only, empty-IsTree);
      only = λ x. inl (empty-none x);
      served = tt;
    }

    -- Where the allocator is sound and has a frame, the offset of the physical memory is that of
    -- a page, the memory map can be read and all that it names starts in 64 bits, init returns,
    -- and the tables that it has built, seen through the direct map, form a tree. It asks for
    -- each range of the memory map and for the framebuffer, at its own address, unless that is
    -- 0, and in the direct map. Every page that is mapped belongs to one of these ranges and has
    -- the entry of its frame there; and of each range of at most 2 ^ 36 pages every page is
    -- mapped so, unless the frames are used up or a page of it is mapped for an earlier range.
    pub init-Holds :
        (info : BootInfo) (ds : List EfiMemoryDescriptor)
        → descriptors info ≡ ok ds
        → AllFit ds
        → info.fb.base < 2 ^ 64
        → (built : Vmm.Vmm alloc_frame) × (Vmm.init alloc_frame info v ≡ ok built)
          × Holds q built (
              asked_both info.fb.base (align_up info.fb.size frame_size / frame_size) (asked ds []))
    unfolding Vmm.init
    init-Holds info ds read fit fb =
        let taken : (frame == 0) ≡ false = ground arith in
        let pages = align_up info.fb.size frame_size / frame_size in
        let last = Vmm.map_both alloc_frame (Vmm.map_all alloc_frame ds empty) info.fb.base pages in
        (
          record last {
            phys_offset = Vmm.hhdm_offset;
            words = λ a. last.words (before last.phys_offset a);
          },
          rw (taken, read) refl,
          Holds-switched last _ (
              request_both (Vmm.map_all alloc_frame ds empty) info.fb.base pages (asked ds [])
                (request_all ds empty [] empty-Holds fit) fb),
        )
