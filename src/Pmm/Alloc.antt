-- ===== src/Pmm/Alloc.antt =====
-- `alloc_frames` (kernel/mm/pmm.cpp): the first run of free frames that is long enough.
use nokernel.Prelude.{
  ℕ, zero, suc, ◌+◌, ◌-◌, ◌*◌, ◌/◌, ◌≤◌, ◌<◌, ◌≡◌, ◌≢◌, refl, true, false, Option, none, some, ◌⊎◌,
  inl, inr, arith, ◌==◌, ==_iff, ltb→lt, ltb, if◌then◌else◌, Bool-cases, ap,
}
use native.Mathlib.Nat.{zero-add}
use nokernel.Word.{u64}
use nokernel.Pmm.{Pmm, frame_size, state, reserve, find_run, alloc_frames}
use nokernel.Pmm.Bitmap.{free_below, free_below_range, within}
use nokernel.Pmm.Reserve.{IsCounted, IsValid, Reserved, refuses, reserve_lem}

-- Every frame of the range is free.
abbrev pub FreeRange : Pmm → ℕ → ℕ → Type 0
FreeRange s first count = (g : ℕ) → within first count g ≡ true → state s g ≡ false

-- What the search knows at `frame`, with `run` free frames just before it.
record Searched (s : Pmm) (count frame run : ℕ) : Type 0 where
  run_le : run ≤ frame
  run_free : FreeRange s (frame - run) run
  longest : (start : ℕ) → start ≤ frame → FreeRange s start (frame - start) → frame ≤ start + run
  none_before : (start : ℕ) → start + count ≤ frame → ¬ (FreeRange s start count)

-- A run of `count` free frames from `first` on, and none before it.
pub record FirstRun (s : Pmm) (count limit first : ℕ) : Type 0 where
  pub below : first + count ≤ limit
  pub free : FreeRange s first count
  pub earliest : (start : ℕ) → start < first → ¬ (FreeRange s start count)

module _ (s : Pmm) (count : ℕ) where
  abbrev run_at : ℕ → ℕ → ℕ
  run_at frame run = if state s frame then 0 else run + 1

  Searched-start : 0 < count → Searched s count 0 0
  Searched-start h = record {
    run_le = omega arith;
    run_free = λ g p. absurd (ground arith);
    longest = λ start p q. omega arith;
    none_before = λ start p q. omega arith;
  }

  module _ {frame run : ℕ} (k : Searched s count frame run) where
    open k use {run_le, run_free, longest, none_before}

    run_free_step : FreeRange s (frame + 1 - run_at frame run) (run_at frame run)
    run_free_step g p = elim (Bool-cases (frame == g)) [
      | inl e ↦ ground (arith, ap (state s) ((==_iff frame g).0 e))
      | inr e ↦ ground (arith, run_free g)
    ]

    longest_step :
        (start : ℕ)
        → start ≤ frame + 1
        → FreeRange s start (frame + 1 - start)
        → frame + 1 ≤ start + run_at frame run
    longest_step start p q = elim (Bool-cases (ltb frame start)) [
      | inl e ↦ ground arith
      | inr e ↦ ground (arith, q frame, longest start (ground arith) (λ g r. q g (ground arith)))
    ]

    none_before_step :
        run_at frame run < count
        → (start : ℕ) → start + count ≤ frame + 1
        → ¬ (FreeRange s start count)
    none_before_step short start p q = elim (Bool-cases (start + count == frame + 1)) [
      | inl e ↦ omega (
        arith,
        longest_step start (omega arith) (λ g r. q g (ground arith)),
        (==_iff (start + count) (frame + 1)).0 e,
      )
      | inr e ↦ none_before start (ground arith) q
    ]

    Searched-step : run_at frame run < count → Searched s count (frame + 1) (run_at frame run)
    Searched-step short = record {
      run_le = ground arith;
      run_free = run_free_step;
      longest = longest_step;
      none_before = none_before_step short;
    }

    -- The search stops here: the run that ends at `frame` is the first one.
    stops :
        (rounds : ℕ)
        → run < count
        → count ≤ run_at frame run
        → FirstRun s count (frame + suc rounds) (frame + 1 - count)
    stops rounds before h = record {
      below = ground arith;
      free = λ g p. run_free_step g (ground arith);
      earliest = λ start p q. none_before start (ground arith) q;
    }

  -- No run at all lies below `limit`.
  abbrev NoRun : ℕ → Type 0
  NoRun limit = (start : ℕ) → start + count ≤ limit → ¬ (FreeRange s start count)

  abbrev RunAt : ℕ → Option ℕ → Type 0
  RunAt limit none = NoRun limit
  RunAt limit (some first) = FirstRun s count limit first

  find_run_lem :
      (rounds : ℕ) {frame run : ℕ}
      → Searched s count frame run
      → run < count
      → RunAt (frame + rounds) (find_run s count rounds frame run)
  unfolding find_run
  find_run_lem zero k short = λ start p. k.none_before start (omega arith)
  find_run_lem (suc rounds) {frame} {run} k short =
      elim (Bool-cases (ltb (run_at frame run) count)) [
        | inl e ↦ rw (e, next) (find_run_lem rounds (Searched-step k (ltb→lt _ _ e)) (ltb→lt _ _ e))
        | inr e ↦ rw e (stops k rounds short (ground arith))
      ]
    where
      next : frame + suc rounds ≡ frame + 1 + rounds
      next = omega arith

-- The call hands out the frames from `first` on: the first run that is long enough.
pub record Granted (s : Pmm) (count : ℕ) (address : ℕ) (t : Pmm) : Type 0 where
  pub positive : 0 < count
  pub first : ℕ
  pub chosen : FirstRun s count s.total_frames first
  pub address_of : address ≡ first * frame_size
  pub ne_null : address ≢ 0
  pub reserved : Reserved s first count t
  pub counter : t.free_frames + count ≡ s.free_frames

-- The call refuses, and changes nothing: nothing was asked for, or no run is long enough.
pub record Refused (s : Pmm) (count : ℕ) (address : ℕ) (t : Pmm) : Type 0 where
  pub null : address ≡ 0
  pub unchanged : t ≡ s
  pub reason : (count ≡ 0) ⊎ NoRun s count s.total_frames

-- A run of `count` free frames needs `count` free frames.
count-le-free :
    {s : Pmm} (count start : ℕ)
    → IsCounted s
    → start + count ≤ s.total_frames
    → FreeRange s start count
    → count ≤ s.free_frames
count-le-free {s} count start c h free = omega (
  arith,
  c.counted,
  free_below_range (state s) (λ g. if within start count g then true else state s g) start count
      (λ g. refl) free s.total_frames h,
)

module _ {s : Pmm} (count : ℕ) (v : IsValid s) (pos : 0 < count) where
  open v use {is_counted}

  module _ (first : ℕ) (run : FirstRun s count s.total_frames first) where
    no_wrap : u64 (first * frame_size) / frame_size ≡ first
    no_wrap = omega (arith, run.below, is_counted.bitmap.small)

    accepted : refuses s (u64 (first * frame_size)) count ≡ false
    accepted = ground (arith, run.below, no_wrap)

    marked : Reserved s first count (reserve s (u64 (first * frame_size)) count)
    marked = rw (accepted, no_wrap) at (reserve_lem (u64 (first * frame_size)) count is_counted)

    first_pos : first ≢ 0
    first_pos e = ground (arith, run.below, run.free 0, v.zero_used)

    grant : Granted s count (u64 (first * frame_size)) (reserve s (u64 (first * frame_size)) count)
    grant = record {
      positive = pos;
      first = first;
      chosen = run;
      address_of = omega (arith, run.below, is_counted.bitmap.small);
      ne_null = λ e. first_pos (omega (arith, run.below, is_counted.bitmap.small));
      reserved = marked;
      counter = omega (
        arith,
        is_counted.counted,
        marked.is_counted.counted,
        ap (free_below (state (reserve s (u64 (first * frame_size)) count))) marked.same_total,
        free_below_range (state s) (state (reserve s (u64 (first * frame_size)) count)) first count
            marked.states run.free s.total_frames run.below,
      );
    }

  abbrev GrantedOrRefused : ℕ × Pmm → Type 0
  GrantedOrRefused (address, t) = Granted s count address t ⊎ Refused s count address t

  search_lem : GrantedOrRefused (elim (find_run s count s.total_frames 0 0) [
    | none ↦ (0, s)
    | some first ↦ (u64 (first * frame_size), reserve s (u64 (first * frame_size)) count)
  ])
  search_lem = go (find_run s count s.total_frames 0 0) found
    where
      found : RunAt s count s.total_frames (find_run s count s.total_frames 0 0)
      found =
          rw (zero-add s.total_frames) at
            (find_run_lem s count s.total_frames (Searched-start s count pos) pos)

      go :
          (o : Option ℕ)
          → RunAt s count s.total_frames o
          → GrantedOrRefused (elim o [
            | none ↦ (0, s)
            | some first ↦ (u64 (first * frame_size), reserve s (u64 (first * frame_size)) count)
          ])
      go none none_found = inr (record { null = refl; unchanged = refl; reason = inr none_found })
      go (some first) run = inl (grant first run)

-- From a valid state `alloc_frames` either hands out the lowest run of `count` free frames, at a
-- non-null address, marks exactly these used and takes them off the counter, or it returns 0 and
-- changes nothing, and then `count` is 0 or no run of `count` free frames exists.
pub alloc_frames_lem :
    {s : Pmm} (count : ℕ)
    → IsValid s
    → let (address, t) = alloc_frames s count in
      Granted s count address t ⊎ Refused s count address t
unfolding alloc_frames
alloc_frames_lem {s} count v = elim (Bool-cases (count == 0)) [
  | inl e ↦
      rw e (inr (record { null = refl; unchanged = refl; reason = inl ((==_iff count 0).0 e) }))
  | inr e ↦ elim (Bool-cases (ltb s.free_frames count)) [
    | inl few ↦
        rw (e, few)
          (inr (record {
            null = refl;
            unchanged = refl;
            reason = inr (λ start p q.
                absurd (omega (arith, count-le-free count start v.is_counted p q, ltb→lt _ _ few)));
          }))
    | inr enough ↦ rw (e, enough) (search_lem count v (ground arith))
  ]
]

-- Handing out frames keeps the manager valid: frame 0 stays used.
pub Granted-IsValid :
    {s t : Pmm} {count address : ℕ} → IsValid s → Granted s count address t → IsValid t
Granted-IsValid v g = record {
  is_counted = g.reserved.is_counted;
  zero_used = λ h. ground (arith, g.reserved.states 0, g.reserved.same_total, v.zero_used);
}
