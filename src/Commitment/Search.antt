-- ===== src/Commitment/Search.antt =====
-- server/src/SecretSharingImpl.go: the search for the bases of the commitments, SetCommitmentValues.
use native.Mathlib.Nat.{mod-eq_of_lt}
use digital_election_system.Common.{
  ℕ, zero, suc, ◌+◌, ◌*◌, ◌%◌, ◌^◌, ◌≤◌, ◌<◌, ◌≡◌, ◌∙◌, sym, ap, inl, inr, none, some, arith,
  Option-cases, ◌≢◌, ◌⊎◌,
}
use digital_election_system.Number.Congruence.{Cong, Cong-of_multiples, ◌⊙◌, Cong-of_eq, Cong-mod}
use digital_election_system.Number.Power.{Cong-pow, one-pow}
use digital_election_system.Number.{exp, emod}
use digital_election_system.Commitment.{
  set_commitment_check, commitment_loop, set_commitment_values,
}

module _ (p q : ℕ) where
  abbrev pub Passes : ℕ → Type 0
  Passes i = set_commitment_check p q i ≡ some i

  abbrev pub AllFail : ℕ → ℕ → Type 0
  AllFail i j = (k : ℕ) → i ≤ k → k < j → set_commitment_check p q k ≡ none

  -- The check returns its argument or nil.
  pub set_commitment_check_same :
      (i r : ℕ) → set_commitment_check p q i ≡ some r → Passes i × (r ≡ i)
  unfolding set_commitment_check exp
  set_commitment_check_same i r e = ground arith

  AllFail-extend : (i j : ℕ) → set_commitment_check p q i ≡ none → AllFail (i + 1) j → AllFail i j
  AllFail-extend i j e h k l b = elim (split i k l) [
    | inl same ↦ ap (set_commitment_check p q) (sym same) ∙ e
    | inr later ↦ h k later b
  ]
    where
      split : (i k : ℕ) → i ≤ k → (i ≡ k) ⊎ (i + 1 ≤ k)
      split i k l = grind arith

  fails_below : (i j : ℕ) → i ≤ j → Passes j → set_commitment_check p q i ≡ none → i + 1 ≤ j
  fails_below i j l pass e = elim (split i j l) [
    | inl same ↦ absurd (some≢none (sym pass ∙ ap (set_commitment_check p q) (sym same) ∙ e))
    | inr later ↦ later
  ]
    where
      split : (i k : ℕ) → i ≤ k → (i ≡ k) ⊎ (i + 1 ≤ k)
      split i k l = grind arith

      some≢none : some j ≢ none
      some≢none e = cc

  -- With one base in hand the loop takes the next number that passes, if one does at j.
  find_second :
      (fuel i j g : ℕ)
      → i ≤ j
      → j + 2 ≤ fuel + i
      → Passes j
      → (h : ℕ) × (commitment_loop p q fuel (some g) none i ≡ some (g, h))
        × Passes h
        × (i ≤ h)
        × AllFail i h
  unfolding commitment_loop
  find_second zero i j g l f pass = absurd (omega arith)
  find_second (suc zero) i j g l f pass = absurd (omega arith)
  find_second (suc (suc fuel)) i j g l f pass = elim (Option-cases (set_commitment_check p q i)) [
    | inl e ↦
        let (h, found, passes, le, fail) =
          find_second (suc fuel) (i + 1) j g (fails_below i j l pass e) (omega arith) pass in
        (
          h,
          ap (λ o. commitment_loop p q (suc fuel) (some g) o (i + 1)) e ∙ found,
          passes,
          omega arith,
          AllFail-extend i h e fail,
        )
    | inr (r, e) ↦
        let (passes, same) = set_commitment_check_same i r e in
        (
          i,
          ap (λ o. commitment_loop p q (suc fuel) (some g) o (i + 1)) passes,
          passes,
          omega arith,
          λ k a b. absurd (omega arith),
        )
  ]

  find_first :
      (fuel i j : ℕ)
      → i ≤ j
      → j + 2 ≤ fuel + i
      → Passes j
      → (g f : ℕ) × (commitment_loop p q fuel none none i
          ≡ commitment_loop p q f (some g) none (g + 1))
        × Passes g
        × (i ≤ g)
        × (g ≤ j)
        × AllFail i g
        × (f + g + 1 ≡ fuel + i)
  unfolding commitment_loop
  find_first zero i j l f pass = absurd (omega arith)
  find_first (suc fuel) i j l f pass = elim (Option-cases (set_commitment_check p q i)) [
    | inl e ↦
        let (g, r, found, passes, low, high, fail, left) =
          find_first fuel (i + 1) j (fails_below i j l pass e) (omega arith) pass in
        (
          g,
          r,
          ap (λ o. commitment_loop p q fuel o none (i + 1)) e ∙ found,
          passes,
          omega arith,
          high,
          AllFail-extend i g e fail,
          omega arith,
        )
    | inr (r, e) ↦
        let (passes, same) = set_commitment_check_same i r e in
        (
          i,
          fuel,
          ap (λ o. commitment_loop p q fuel o none (i + 1)) passes,
          passes,
          omega arith,
          l,
          (λ k a b. absurd (omega arith)),
          omega arith,
        )
  ]

  -- A number that is 1 modulo p passes, so the search cannot fail.
  Passes-of_one : (i : ℕ) → 1 < p → Cong p i 1 → Passes i
  unfolding set_commitment_check exp emod
  Passes-of_one i big e = ground (arith, power_one)
    where
      power_one : (i % p) ^ q % p ≡ 1
      power_one = (Cong-pow q (Cong-mod i ⊙ e) ⊙ Cong-of_eq (one-pow q)).same ∙ mod-eq_of_lt big

-- For every modulus p of 2 or more the search for the bases ends. Its results g and h pass the test
-- x ^ q ≡ 1 (mod p), g is less than h, and no other number from 2 up to h passes.
pub set_commitment_values_lem :
    (p q : ℕ)
    → 1 < p
    → (g h : ℕ) × (set_commitment_values p q ≡ some (g, h))
      × Passes p q g
      × Passes p q h
      × (1 < g)
      × (g < h)
      × AllFail p q 2 g
      × AllFail p q (g + 1) h
unfolding set_commitment_values
set_commitment_values_lem p q big =
    let (g, f, e, pg, low, high, fail, left) =
      find_first p q (2 * p + 2) 2 (p + 1) (omega arith) (omega arith)
        (Passes-of_one p q (p + 1) big (Cong-of_multiples (p + 1) 1 0 1 (omega arith))) in
    let (h, e', ph, le, fail') =
      find_second p q f (g + 1) (2 * p + 1) g (omega arith) (omega arith)
        (Passes-of_one p q (2 * p + 1) big (Cong-of_multiples (2 * p + 1) 1 0 2 (omega arith))) in
    (g, h, e ∙ e', pg, ph, low, omega arith, fail, fail')
