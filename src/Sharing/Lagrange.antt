-- ===== src/Sharing/Lagrange.antt =====
-- server/src/SecretSharingImpl.go: the coefficient that Lagrange computes for a point.
use digital_election_system.Common.{
  ℕ, suc, ◌+◌, ◌*◌, ◌%◌, ◌^◌, ◌≡◌, refl, some, List, [], ◌∷◌, arith, ℤ, pos, ◌-ℤ◌, ◌*ℤ◌,
}
use native.Mathlib.Nat.{pow-zero, pow-suc}
use digital_election_system.Number.Congruence.{
  Cong, Cong-of_eq, Cong-sym, ◌⊙◌, Cong-mod, Cong-mul, Cong-mul_left, Cong-mul_right,
}
use digital_election_system.Number.Residue.{
  residue, residue_pos, residue-*, residue-sub, emod-eq, emod_pos,
}
use digital_election_system.Number.Inverse.{mod_inverse_sound, mod_inverse_complete}
use digital_election_system.Number.Prime.{Inverse}
use digital_election_system.Number.{emod, exp}
use digital_election_system.Sharing.{lagrange_loop, lagrange}

module _ (p : ℕ) where
  -- The modulus.
  abbrev q : ℕ
  q = suc p

  -- Π (x - j), with p for -1.
  unfoldable pub differences : List ℤ → ℕ → ℕ
  differences [] x = 1
  differences (j ∷ js) x = (x + p * residue q j) * differences js x

  -- Π (-j)
  unfoldable pub negations : List ℤ → ℕ
  negations [] = 1
  negations (j ∷ js) = p * residue q j * negations js

  negation_step :
      (num j : ℤ) → Cong q (residue q (num *ℤ (pos 0 -ℤ j))) (residue q num * (p * residue q j))
  negation_step num j =
      residue-* q num (pos 0 -ℤ j) (omega arith)
      ⊙ Cong-mul_left (residue q num) (
          residue-sub q (pos 0) j (omega arith)
          ⊙ Cong-of_eq {b = p * residue q j} (omega (arith, residue_pos q 0)))

  difference_step :
      (denom i j : ℤ)
      → Cong q (residue q (denom *ℤ (i -ℤ j))) (residue q denom * (residue q i + p * residue q j))
  difference_step denom i j =
      residue-* q denom (i -ℤ j) (omega arith)
      ⊙ Cong-mul_left (residue q denom) (residue-sub q i j (omega arith))

  lagrange_loop-Cong :
      (i num denom : ℤ) (m : List ℤ)
      → Cong q (residue q (lagrange_loop i num denom m).0) (residue q num * negations m)
        × Cong q
            (residue q (lagrange_loop i num denom m).1)
            (residue q denom * differences m (residue q i))
  unfolding lagrange_loop negations differences
  lagrange_loop-Cong i num denom [] = (Cong-of_eq (omega arith), Cong-of_eq (omega arith))
  lagrange_loop-Cong i num denom (j ∷ m) =
      let (n, d) = lagrange_loop-Cong i (num *ℤ (pos 0 -ℤ j)) (denom *ℤ (i -ℤ j)) m in
      (
        n ⊙ Cong-mul_right (negations m) (negation_step num j) ⊙ Cong-of_eq (omega arith),
        d
            ⊙ Cong-mul_right (differences m (residue q i)) (difference_step denom i j)
            ⊙ Cong-of_eq (omega arith),
      )

  -- From 1 on, the loop gives the two products.
  loop_products :
      (i : ℤ) (m : List ℤ)
      → Cong q (residue q (lagrange_loop i (pos 1) (pos 1) m).0) (negations m)
        × Cong q (residue q (lagrange_loop i (pos 1) (pos 1) m).1) (differences m (residue q i))
  loop_products i m =
      let (n, d) = lagrange_loop-Cong i (pos 1) (pos 1) m in
      (n ⊙ Cong-of_eq (one (negations m)), d ⊙ Cong-of_eq (one (differences m (residue q i))))
    where
      one : (t : ℕ) → residue q (pos 1) * t ≡ t
      one t = rw (residue_pos q 1) (omega arith)

  emod-Cong : (z : ℤ) → Cong q (emod z q) (residue q z)
  emod-Cong z = Cong-of_eq (emod-eq q z (omega arith)) ⊙ Cong-mod (residue q z)

  quotient_lem :
      (num : ℤ) (n d v w : ℕ)
      → Cong q (residue q num) n
      → Cong q (d * v) 1
      → Cong q w v
      → Cong q (emod (num *ℤ pos w) q * d) n
  quotient_lem num n d v w en inverse ew =
      Cong-mul_right d (
        emod-Cong (num *ℤ pos w)
        ⊙ residue-* q num (pos w) (omega arith)
        ⊙ Cong-mul en (Cong-of_eq (residue_pos q w) ⊙ ew))
      ⊙ Cong-of_eq (omega arith)
      ⊙ Cong-mul_left n inverse
      ⊙ Cong-of_eq (omega arith)

  -- The coefficient exists wherever the differences have an inverse.
  pub lagrange_lem :
      (i : ℤ) (m : List ℤ)
      → Inverse q (differences m (residue q i))
      → (delta : ℕ) × (lagrange i q m ≡ some delta)
        × Cong q (delta * differences m (residue q i)) (negations m)
  unfolding lagrange exp
  lagrange_lem i m (u, unit) =
      let (n, d) = loop_products i m in
      let (v, found) =
        mod_inverse_complete q (omega arith) (lagrange_loop i (pos 1) (pos 1) m).1 u
          (Cong-mul_right u d ⊙ unit) in
      (
        emod ((lagrange_loop i (pos 1) (pos 1) m).0 *ℤ pos (emod (pos v) q ^ 1 % q)) q,
        rw found refl,
        quotient_lem _ (negations m) (differences m (residue q i)) v (emod (pos v) q ^ 1 % q) n
            (Cong-mul_right v (Cong-sym d)
              ⊙ (mod_inverse_sound q (omega arith) (lagrange_loop i (pos 1) (pos 1) m).1 v found).0)
            (Cong-mod _
              ⊙ Cong-of_eq (rw (pow-suc, pow-zero, emod_pos v q) (omega arith))
              ⊙ Cong-mod v),
      )
