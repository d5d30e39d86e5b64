-- ===== src/Pmm/Bitmap.antt =====
-- The bitmap as a set of frames: what `set`, `clear` and `state` do to one another, and how many
-- frames are free.
use nokernel.Prelude.{
  ℕ, zero, suc, ◌+◌, ◌/◌, ◌%◌, ◌*◌, ◌^◌, ◌≤◌, ◌<◌, ◌≡◌, refl, ap, ◌-◌, Bool, true, false, ◌&&◌,
  List, [], ◌∷◌, get_or, set, length, length-set, get_or-set_self, get_or-set_ne, arith, ◌==◌, ltb,
  leb, if◌then◌else◌, Bool-cases, inl, inr, ==_iff,
}
use Prim.Native.Nat.{min}
use nokernel.Word.Byte.{set_bit, clear_bit, test-set_bit, test-clear_bit, set_bit-lt, clear_bit-lt}
use nokernel.Pmm.{Pmm, state, set_used, clear}

-- The bytes are bytes, and there is a bit for every frame.
pub record IsBitmap (s : Pmm) : Type 0 where
  pub bytes : (i : ℕ) → get_or s.bitmap i 0 < 256
  pub sized : s.total_frames ≤ 8 * length s.bitmap
  pub small : s.total_frames ≤ 2 ^ 52

bytes-set :
    (xs : List ℕ) (i v : ℕ)
    → ((j : ℕ) → get_or xs j 0 < 256)
    → v < 256
    → (j : ℕ) → get_or (set xs i v) j 0 < 256
bytes-set [] i v h hv j = h j
bytes-set (x ∷ xs) zero v h hv zero = hv
bytes-set (x ∷ xs) zero v h hv (suc j) = h (suc j)
bytes-set (x ∷ xs) (suc i) v h hv zero = h zero
bytes-set (x ∷ xs) (suc i) v h hv (suc j) = bytes-set xs i v (λ k. h (suc k)) hv j

module _ {s : Pmm} (b : IsBitmap s) (f : ℕ) where
  pub set_used-IsBitmap : IsBitmap (set_used s f)
  unfolding set_used
  set_used-IsBitmap = record {
    bytes = bytes-set s.bitmap (f / 8) _ b.bytes (set_bit-lt _ _);
    sized =
        ground (
          arith,
          b.sized,
          length-set s.bitmap (f / 8) (set_bit (get_or s.bitmap (f / 8) 0) (f % 8)),
        );
    small = b.small;
  }

  pub clear-IsBitmap : IsBitmap (clear s f)
  unfolding clear
  clear-IsBitmap = record {
    bytes = bytes-set s.bitmap (f / 8) _ b.bytes (clear_bit-lt _ _);
    sized = ground (
      arith,
      b.sized,
      length-set s.bitmap (f / 8) (clear_bit (get_or s.bitmap (f / 8) 0) (f % 8)),
    );
    small = b.small;
  }

  -- Setting the bit of a frame marks that frame used, and no other.
  pub state-set_used :
      f < s.total_frames → (g : ℕ) → state (set_used s f) g ≡ (if f == g then true else state s g)
  unfolding state set_used
  state-set_used h g = elim (Bool-cases (f / 8 == g / 8)) [
    | inl e ↦ ground (
      arith,
      b.sized,
      b.bytes (f / 8),
      get_or-set_self s.bitmap (f / 8) (set_bit (get_or s.bitmap (f / 8) 0) (f % 8)) 0,
      test-set_bit (get_or s.bitmap (f / 8) 0) (f % 8) (g % 8),
    )
    | inr e ↦ ground (
      arith,
      get_or-set_ne s.bitmap {i = f / 8} {j = g / 8} (set_bit (get_or s.bitmap (f / 8) 0) (f % 8)) 0
          (ground arith),
    )
  ]

  -- Clearing it marks that frame free, and no other.
  pub state-clear :
      f < s.total_frames → (g : ℕ) → state (clear s f) g ≡ (if f == g then false else state s g)
  unfolding state clear
  state-clear h g = elim (Bool-cases (f / 8 == g / 8)) [
    | inl e ↦ ground (
      arith,
      b.sized,
      b.bytes (f / 8),
      get_or-set_self s.bitmap (f / 8) (clear_bit (get_or s.bitmap (f / 8) 0) (f % 8)) 0,
      test-clear_bit (get_or s.bitmap (f / 8) 0) (f % 8) (g % 8),
    )
    | inr e ↦ ground (
      arith,
      get_or-set_ne s.bitmap {i = f / 8} {j = g / 8} (clear_bit (get_or s.bitmap (f / 8) 0) (f % 8))
          0 (ground arith),
    )
  ]

-- How many of the frames below `n` are free.
unfoldable pub free_below : (ℕ → Bool) → ℕ → ℕ
free_below used zero = 0
free_below used (suc n) = free_below used n + (if used n then 0 else 1)

pub free_below-le : (used : ℕ → Bool) (n : ℕ) → free_below used n ≤ n
unfolding free_below
free_below-le used zero = omega arith
free_below-le used (suc n) = ground (arith, free_below-le used n)

pub free_below_ext :
    (u v : ℕ → Bool) (n : ℕ) → ((g : ℕ) → g < n → u g ≡ v g) → free_below u n ≡ free_below v n
unfolding free_below
free_below_ext u v zero h = refl
free_below_ext u v (suc n) h =
    ground (arith, free_below_ext u v n (λ g p. h g (omega arith)), h n (omega arith))

-- `v` is `u` with frame `f` marked used: one free frame fewer, if it was free.
pub free_below_mark :
    (u v : ℕ → Bool) (f n : ℕ)
    → ((g : ℕ) → v g ≡ (if f == g then true else u g))
    → free_below v n + (if ltb f n then (if u f then 0 else 1) else 0) ≡ free_below u n
unfolding free_below
free_below_mark u v f zero h = ground arith
free_below_mark u v f (suc n) h = elim (Bool-cases (f == n)) [
  | inl e ↦ ground (arith, free_below_mark u v f n h, h n, ap u ((==_iff f n).0 e))
  | inr e ↦ ground (arith, free_below_mark u v f n h, h n)
]

-- The frames of a range.
abbrev pub within : ℕ → ℕ → ℕ → Bool
within first count g = leb first g && ltb g (first + count)

-- `v` is `u` with a range of free frames marked used.
module _ (u v : ℕ → Bool) (first count : ℕ)
    (marked : (g : ℕ) → v g ≡ (if within first count g then true else u g))
    (free : (g : ℕ) → within first count g ≡ true → u g ≡ false) where
  -- Up to `n`, as many frames fewer are free as the range has below `n`.
  free_below_overlap : (n : ℕ) → free_below v n + min (n - first) count ≡ free_below u n
  unfolding free_below
  free_below_overlap zero = omega arith
  free_below_overlap (suc n) = ground (arith, free_below_overlap n, marked n, free n)

  pub free_below_range : (n : ℕ) → first + count ≤ n → free_below v n + count ≡ free_below u n
  free_below_range n fits = omega (arith, free_below_overlap n)
