-- ===== src/Vmm/Requests.antt =====
-- The ranges that `init` of kernel/mm/vmm.cpp asks for, and what becomes of each.
use nokernel.Prelude.{
  ℕ, ◌+◌, ◌^◌, ◌<◌, true, false, none, some, List, [], ◌∷◌, ◌≡◌, ◌⊎◌, leb, ◌==◌, refl, sym, ◌∙◌,
  if◌then◌else◌, Bool-cases, Bool, not, inl, inr, arith,
}
use nokernel.Word.{u64}
use nokernel.Boot.{EfiMemoryDescriptor}
use nokernel.Vmm
use nokernel.Vmm.Tree.{IsAllocator, mapped}
use nokernel.Vmm.Walk.{Exhausted}
use nokernel.Vmm.Mapped.{HasTree}
use nokernel.Vmm.Ranges.{covers, range_entry}
use nokernel.Vmm.RoundTrip.{map_range_lem}
use nokernel.Vmm.Refused.{map_range-Exhausted, map_range-fails}

-- `count` pages from `virt` on, for the frames from `phys` on.
pub record Request : Type 0 where
  pub virt : ℕ
  pub phys : ℕ
  pub count : ℕ

-- Frames at their own address, but for frame 0, and then in the direct map. The last request is first.
abbrev pub asked_both : ℕ → ℕ → List Request → List Request
asked_both phys count before =
    let high : Request = record {
      virt = u64 (phys + Vmm.hhdm_offset);
      phys = phys;
      count = count;
    } in
    high
    ∷ (if not (phys == 0)
        then record { virt = phys; phys = phys; count = count } ∷ before
        else before)

-- Those of the memory map, after others.
abbrev pub asked : List EfiMemoryDescriptor → List Request → List Request
asked [] before = before
asked (d ∷ ds) before = asked ds (asked_both d.physical_start d.number_of_pages before)

module _ {A : Type 0} {alloc_frame : A → ℕ × A} (q : IsAllocator alloc_frame) where
  -- The page of `x` belongs to the request, and has the entry of its frame.
  abbrev pub Leads : Vmm.Vmm alloc_frame → Request → ℕ → Type 0
  Leads v r x =
      (covers r.virt r.count x ≡ true)
      × (mapped q v x ≡ some (range_entry q r.virt r.phys Vmm.writable x))

  -- For one of the requests.
  abbrev pub LeadsAny : Vmm.Vmm alloc_frame → List Request → ℕ → Type 0
  LeadsAny v [] x = ⊥
  LeadsAny v (r ∷ rs) x = Leads v r x ⊎ LeadsAny v rs x

  -- Each of its pages has the entry of its frame; or the frames are used up; or a page of it is that
  -- of an earlier request; or it is larger than the address space.
  abbrev pub Serves : Vmm.Vmm alloc_frame → Request → List Request → Type 0
  Serves v r earlier =
      ((x : ℕ) → covers r.virt r.count x ≡ true → Leads v r x)
      ⊎ (Exhausted q v
          ⊎ (((x : ℕ) × (covers r.virt r.count x ≡ true) × LeadsAny v earlier x)
              ⊎ (2 ^ 36 < r.count)))

  abbrev pub AllServed : Vmm.Vmm alloc_frame → List Request → Type 0
  AllServed v [] = Unit {0}
  AllServed v (r ∷ earlier) = Serves v r earlier × AllServed v earlier

  -- The tables form a tree, hold what was asked for and nothing else.
  pub record Holds (v : Vmm.Vmm alloc_frame) (rs : List Request) : Type 0 where
    pub tree : HasTree q v
    pub only : (x : ℕ) → (mapped q v x ≡ none) ⊎ LeadsAny v rs x
    pub served : AllServed v rs

  -- What is mapped stays, and so does it if no frame is left.
  module _ (v v' : Vmm.Vmm alloc_frame)
      (stays : (x w : ℕ) → mapped q v x ≡ some w → mapped q v' x ≡ some w)
      (spent : Exhausted q v → Exhausted q v') where
    LeadsAny-stays : (rs : List Request) (x : ℕ) → LeadsAny v rs x → LeadsAny v' rs x
    LeadsAny-stays [] x h = h
    LeadsAny-stays (r ∷ rs) x (inl (c, e)) = inl (c, stays x _ e)
    LeadsAny-stays (r ∷ rs) x (inr h) = inr (LeadsAny-stays rs x h)

    Serves-stays : (r : Request) (rs : List Request) → Serves v r rs → Serves v' r rs
    Serves-stays r rs (inl all) = inl (λ x c. (c, stays x _ (all x c).1))
    Serves-stays r rs (inr (inl e)) = inr (inl (spent e))
    Serves-stays r rs (inr (inr (inl (x, c, h)))) = inr (inr (inl (x, c, LeadsAny-stays rs x h)))
    Serves-stays r rs (inr (inr (inr large))) = inr (inr (inr large))

    AllServed-stays : (rs : List Request) → AllServed v rs → AllServed v' rs
    AllServed-stays [] h = tt
    AllServed-stays (r ∷ rs) (s, h) = (Serves-stays r rs s, AllServed-stays rs h)

  -- The same pages are mapped.
  pub Holds-same :
      (v v' : Vmm.Vmm alloc_frame) (rs : List Request)
      → HasTree q v'
      → ((x : ℕ) → mapped q v' x ≡ mapped q v x)
      → (Exhausted q v → Exhausted q v')
      → Holds v rs
      → Holds v' rs
  Holds-same v v' rs tree same spent h =
      let stays = λ (x w : ℕ) (e : mapped q v x ≡ some w). same x ∙ e in
      record {
        tree = tree;
        only = λ x. elim (h.only x) [
          | inl off ↦ inl (same x ∙ off)
          | inr on ↦ inr (LeadsAny-stays v v' stays spent rs x on)
        ];
        served = AllServed-stays v v' stays spent rs h.served;
      }

  module _ (v : Vmm.Vmm alloc_frame) (r : Request) (rs : List Request) (h : Holds v rs)
      (small_virt : r.virt < 2 ^ 64) (small : r.phys < 2 ^ 64) where
    abbrev run : Bool × Vmm.Vmm alloc_frame
    run = Vmm.map_range alloc_frame v r.virt r.phys r.count Vmm.writable

    run_spent : Exhausted q v → Exhausted q run.1
    run_spent e =
        map_range-Exhausted q v r.virt r.phys r.count Vmm.writable
          (unfold HasTree in h.tree.1.sound) e

    done-Holds :
        HasTree q run.1
        → ((x : ℕ) → covers r.virt r.count x ≡ true → mapped q v x ≡ none)
        → ((x : ℕ)
            → mapped q run.1 x ≡ (
                if covers r.virt r.count x
                then some (range_entry q r.virt r.phys Vmm.writable x)
                else mapped q v x))
        → Holds run.1 (r ∷ rs)
    done-Holds tree free after =
        let new = λ (x : ℕ) (c : covers r.virt r.count x ≡ true). after x ∙ rw c refl in
        let stays : (x w : ℕ) → mapped q v x ≡ some w → mapped q run.1 x ≡ some w = λ x w e.
          elim (Bool-cases (covers r.virt r.count x)) [
            | inl c ↦ absurd (cc (free x c, e))
            | inr c ↦ after x ∙ rw c e
          ] in
        record {
          tree = tree;
          only = λ x. elim (Bool-cases (covers r.virt r.count x)) [
            | inl c ↦ inr (inl (c, new x c))
            | inr c ↦ elim (h.only x) [
              | inl off ↦ inl (after x ∙ rw c off)
              | inr on ↦ inr (inr (LeadsAny-stays v run.1 stays run_spent rs x on))
            ]
          ];
          served = (inl (λ x c. (c, new x c)), AllServed-stays v run.1 stays run_spent rs h.served);
        }

    refused-Serves :
        (same : (x : ℕ) → mapped q run.1 x ≡ mapped q v x)
        → run.0 ≡ false
        → Holds run.1 rs
        → Serves run.1 r rs
    refused-Serves same e after = elim (Bool-cases (leb r.count (2 ^ 36))) [
      | inr large ↦ inr (inr (inr (ground arith)))
      | inl fits ↦
          elim (map_range-fails q v r.virt r.phys r.count Vmm.writable (ground arith) h.tree e) [
            | inl spent ↦ inr (inl spent)
            | inr (x, c, taken) ↦ elim (after.only x) [
              | inl off ↦ absurd (taken (sym (same x) ∙ off))
              | inr on ↦ inr (inr (inl (x, c, on)))
            ]
          ]
    ]

    pub map_range-Holds : Holds run.1 (r ∷ rs)
    map_range-Holds =
        let laws = map_range_lem q v r.virt r.phys r.count Vmm.writable h.tree small_virt small in
        elim laws.1 [
          | inl (e, free, after) ↦ done-Holds laws.0 free after
          | inr (e, same) ↦
              let after = Holds-same v run.1 rs laws.0 same run_spent h in
              record {
                tree = laws.0;
                only = λ x. elim (after.only x) [ inl off ↦ inl off | inr on ↦ inr (inr on) ];
                served = (refused-Serves same e after, after.served);
              }
        ]
