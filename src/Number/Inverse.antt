-- ===== src/Number/Inverse.antt =====
-- The inverses modulo m that ModInverse of math/big looks for.
use native.Mathlib.Nat.{mod-lt}
use digital_election_system.Common.{
  ℕ, zero, suc, ◌*◌, ◌%◌, ◌<◌, ◌≡◌, some, inl, inr, arith, Option-cases, ℤ,
}
use digital_election_system.Number.Congruence.{
  Cong, Cong-of_eq, Cong-sym, ◌⊙◌, Cong-mul, Cong-mod, Cong-mul_right,
}
use digital_election_system.Number.Residue.{residue, emod-eq}
use digital_election_system.Number.{emod, find_inverse, mod_inverse}

pub find_inverse_sound : (a m n x : ℕ) → find_inverse a m n ≡ some x → (a * x % m ≡ 1 % m) × (x < n)
unfolding find_inverse
find_inverse_sound a m zero x e = ground arith
find_inverse_sound a m (suc n) x e = ground (arith, find_inverse_sound a m n x)

pub find_inverse_complete :
    (a m n y : ℕ) → y < n → a * y % m ≡ 1 % m → (x : ℕ) × (find_inverse a m n ≡ some x)
unfolding find_inverse
find_inverse_complete a m zero y h e = elim h [ ]
find_inverse_complete a m (suc n) y h e = elim (Option-cases (find_inverse a m n)) [
  | inr (x, found) ↦ (x, ground arith)
  | inl missing ↦ (n, ground (arith, find_inverse_complete a m n y))
]

module _ (m : ℕ) (positive : 0 < m) where
  residue-emod : (a : ℤ) → Cong m (emod a m) (residue m a)
  residue-emod a = Cong-of_eq (emod-eq m a positive) ⊙ Cong-mod (residue m a)

  -- What ModInverse returns is an inverse modulo m and less than m, for m of 1 or more.
  pub mod_inverse_sound :
      (a : ℤ) (x : ℕ) → mod_inverse a m ≡ some x → Cong m (residue m a * x) 1 × (x < m)
  unfolding mod_inverse
  mod_inverse_sound a x e =
      let (unit, below) = find_inverse_sound (emod a m) m m x e in
      (Cong-mul_right x (Cong-sym (residue-emod a)) ⊙ record { same = unit }, below)

  -- ModInverse returns a number whenever the argument has an inverse modulo m, for m of 1 or more.
  pub mod_inverse_complete :
      (a : ℤ) (y : ℕ) → Cong m (residue m a * y) 1 → (x : ℕ) × (mod_inverse a m ≡ some x)
  unfolding mod_inverse
  mod_inverse_complete a y unit =
      find_inverse_complete (emod a m) m m (y % m) (mod-lt y positive)
        (Cong-mul (residue-emod a) (Cong-mod y) ⊙ unit).same
