-- ===== src/Memory/Compare.antt =====
-- What `memcmp` (lib/common/memory.cpp) says.
use nokernel.Prelude.{
  ℕ, zero, suc, ◌+◌, ◌<◌, ◌≡◌, refl, ltb, ◌==◌, arith, Bool-cases, inl, inr, ==_iff, ltb→lt, ◌⊎◌,
}
use nokernel.Memory.{Bytes, memcmp, minus_one}

-- The ranges agree below `n`.
abbrev pub Agree : ℕ → ℕ → ℕ → Bytes → Type 0
Agree s1 s2 n m = (i : ℕ) → i < n → m (s1 + i) ≡ m (s2 + i)

-- They first differ at `n`, and the result says which is less.
pub record Differ (s1 s2 count : ℕ) (m : Bytes) (result : ℕ) : Type 0 where
  pub n : ℕ
  pub inside : n < count
  pub before : Agree s1 s2 n m
  pub sign :
      ((m (s1 + n) < m (s2 + n)) × (result ≡ minus_one))
      ⊎ ((m (s2 + n) < m (s1 + n)) × (result ≡ 1))

module _ (m : Bytes) where
  Agree_cons : (s1 s2 n : ℕ) → m s1 ≡ m s2 → Agree (s1 + 1) (s2 + 1) n m → Agree s1 s2 (suc n) m
  Agree_cons s1 s2 n same rest zero h =
      let left : s1 + 0 ≡ s1 = omega arith in
      let right : s2 + 0 ≡ s2 = omega arith in rw (left, right) same
  Agree_cons s1 s2 n same rest (suc i) h =
      let left : s1 + 1 + i ≡ s1 + suc i = omega arith in
      let right : s2 + 1 + i ≡ s2 + suc i = omega arith in
      rw (← left, ← right) (rest i (omega arith))

  -- `memcmp` returns 0 if the ranges agree; otherwise it returns -1 or 1 as the first byte in which
  -- they differ is less or greater in the first range.
  pub memcmp_lem :
      (s1 s2 count : ℕ)
      → ((memcmp s1 s2 count m ≡ 0) × Agree s1 s2 count m)
        ⊎ Differ s1 s2 count m (memcmp s1 s2 count m)
  unfolding memcmp
  memcmp_lem s1 s2 zero = inl (refl, λ i h. absurd (omega arith))
  memcmp_lem s1 s2 (suc count) = elim (Bool-cases (m s1 == m s2)) [
    | inl e ↦
        let same = (==_iff (m s1) (m s2)).0 e in
        rw e (elim (memcmp_lem (s1 + 1) (s2 + 1) count) [
          | inl a ↦ inl (a.0, Agree_cons s1 s2 count same a.1)
          | inr d ↦
              let left : s1 + 1 + d.n ≡ s1 + suc d.n = omega arith in
              let right : s2 + 1 + d.n ≡ s2 + suc d.n = omega arith in
              inr (record {
                n = suc d.n;
                inside = omega (arith, d.inside);
                before = Agree_cons s1 s2 d.n same d.before;
                sign = rw (← left, ← right) d.sign;
              })
        ])
    | inr e ↦
        let left : s1 + 0 ≡ s1 = omega arith in
        let right : s2 + 0 ≡ s2 = omega arith in
        rw e (
          inr (record {
            n = 0;
            inside = omega arith;
            before = λ i h. absurd (omega arith);
            sign =
                rw (left, right)
                  (elim (Bool-cases (ltb (m s1) (m s2))) [
                    | inl l ↦ inl (ltb→lt (m s1) (m s2) l, rw l)
                    | inr g ↦ inr (ground arith, rw g)
                  ]);
          }))
  ]
