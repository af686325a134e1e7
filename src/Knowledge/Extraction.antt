-- ===== src/Knowledge/Extraction.antt =====
-- server/src/SecretSharingImpl.go: the opening of a commitment that two proofs for it, which Verify01
-- accepts, give away.
use native.Mathlib.Nat.{pow-zero, pow-suc}
use digital_election_system.Common.{
  ◌+◌, ◌-◌, ◌*◌, ◌%◌, ◌^◌, ◌<◌, ◌≡◌, ◌≢◌, inl, inr, refl, sym, ap, ◌∙◌, subst, false, Bool-cases,
  Option, some, ◌>>=◌, some_inj, [], arith, if◌then◌else◌, ℕ, suc, ℤ, pos, negsuc, ◌-ℤ◌,
}
use mathlib.Core.Bool.{true≢false}
use digital_election_system.Number.Congruence.{
  Cong, Cong-of_eq, Cong-sym, ◌⊙◌, Cong-mod, Cong-mul, Cong-mul_left, Cong-mul_right,
}
use digital_election_system.Number.Power.{Cong-pow, mul-pow, one-pow, pow-Cong}
use digital_election_system.Number.Prime.{IsPrime, prime-Inverse}
use digital_election_system.Number.Residue.{residue, residue_pos, residue-sub, emod-eq, minus_one}
use digital_election_system.Number.Inverse.{mod_inverse_sound, mod_inverse_complete}
use digital_election_system.Number.{emod, mod_inverse, xor}
use digital_election_system.Framework.{ZeroKnowledge}
use digital_election_system.Commitment.{ActiveSecretSharing}
use digital_election_system.Commitment.Setup.{IsGroup}
use digital_election_system.Knowledge.{Oracle, random_oracle, verify01, equal}
use digital_election_system.Knowledge.Equal.{equal_sound, equal_self}
use digital_election_system.Knowledge.Completeness.{g_inverse}
use digital_election_system.Knowledge.Soundness.{knowledge, verify01_sound, exponent, differs}

-- The quotient of the differences of two answers and of two challenges, modulo q.
unfoldable pub extract : ℕ → ℤ → ℤ → ℤ → ℤ → Option ℕ
extract q e e' z z' = do w ← mod_inverse (e -ℤ e') q; some (emod (z -ℤ z') q * w)

-- The vote and the exponent of h that two proofs with the same first messages give away: the side on
-- which the challenges differ is that of the vote.
unfoldable pub extract_vote : ℕ → ZeroKnowledge → ZeroKnowledge → Option (ℕ × ℕ)
extract_vote q k k' =
    if equal k.e0 k'.e0
    then (do w ← extract q k.e1 k'.e1 k.z1 k'.z1; some (1, w))
    else (do w ← extract q k.e0 k'.e0 k.z0 k'.z0; some (0, w))

abbrev number : ℤ → ℕ
number (pos n) = n
number (negsuc n) = 0

pos_inj : {m n : ℕ} → pos m ≡ pos n → m ≡ n
pos_inj h = ap number h

apart-equal : (m n : ℕ) → equal (pos m) (pos n) ≡ false → m ≢ n
apart-equal m n apart same =
    true≢false
      (sym (equal_self (pos n)) ∙ subst (λ (k : ℕ). equal (pos k) (pos n) ≡ false) same apart)

module _ (a : ActiveSecretSharing) where
  abbrev p : ℕ
  p = a.prime_p

  abbrev q : ℕ
  q = a.prime_q

  inverse_order : (i : ℕ) → IsGroup a → Cong p (a.g * i) 1 → Cong p (i ^ q) 1
  inverse_order i group inverse =
      Cong-of_eq (omega arith)
      ⊙ Cong-mul_right (i ^ q) (Cong-sym group.g_order)
      ⊙ Cong-of_eq (sym (mul-pow a.g i q))
      ⊙ Cong-pow q inverse
      ⊙ Cong-of_eq (one-pow q)

  over_g : (c i w : ℕ) → Cong p (a.g * i) 1 → Cong p (c * i) (a.h ^ w) → Cong p c (a.g * a.h ^ w)
  over_g c i w inverse e =
      Cong-of_eq (omega arith)
      ⊙ Cong-mul_left c (Cong-sym inverse)
      ⊙ Cong-of_eq (omega arith)
      ⊙ Cong-mul_left a.g e

  challenges_differ :
      (y0 y1 y0' y1' s s' : ℕ)
      → xor (pos y1) (pos y0) ≡ pos s
      → xor (pos y1') (pos y0') ≡ pos s'
      → s ≢ s'
      → y0 ≡ y0'
      → y1 ≢ y1'
  challenges_differ y0 y1 y0' y1' s s' e e' other same same' = other (
      pos_inj (
        sym e
        ∙ ap (λ (t : ℕ). xor (pos t) (pos y0)) same'
        ∙ ap (λ (t : ℕ). xor (pos y1') (pos t)) same
        ∙ e'))

  residue-difference :
      (m e e' : ℕ) → a.prime_q ≡ suc m → Cong q (residue q (pos e -ℤ pos e')) (e + m * e')
  residue-difference m e e' is_q =
      residue-sub q (pos e) (pos e') (omega (arith, is_q))
      ⊙ Cong-of_eq (
          ap (λ (n : ℕ). residue n (pos e) + minus_one n * residue n (pos e')) is_q
          ∙ rw (residue_pos (suc m) e, residue_pos (suc m) e') refl)

  emod-difference :
      (m z z' : ℕ) → a.prime_q ≡ suc m → Cong q (z + m * z') (emod (pos z -ℤ pos z') q)
  emod-difference m z z' is_q =
      Cong-sym (residue-difference m z z' is_q)
      ⊙ Cong-sym (Cong-mod _)
      ⊙ Cong-of_eq (sym (emod-eq q (pos z -ℤ pos z') (omega (arith, is_q))))

  unit : (m e e' : ℕ) → a.prime_q ≡ suc m → e < q → e' < q → e ≢ e' → (e + m * e') % q ≢ 0
  unit m e e' is_q low low' other =
      subst (λ (n : ℕ). (e + m * e') % n ≢ 0) (sym is_q)
        (differs a m e e' (omega (arith, is_q, low)) (omega (arith, is_q, low')) other)

  -- Two accepted conversations with one first message and two challenges give the exponent of the base.
  extract_lem :
      (m base first e e' z z' : ℕ)
      → a.prime_q ≡ suc m
      → IsPrime q
      → Cong p (a.h ^ q) 1
      → Cong p (base ^ q) 1
      → e < q
      → e' < q
      → e ≢ e'
      → Cong p (a.h ^ z) (first * base ^ e)
      → Cong p (a.h ^ z') (first * base ^ e')
      → (w : ℕ) × (extract q (pos e) (pos e') (pos z) (pos z') ≡ some w) × Cong p base (a.h ^ w)
  unfolding extract
  extract_lem m base first e e' z z' is_q prime h_order order low low' other c c' =
      let difference = residue-difference m e e' is_q in
      let (y, inverse) = prime-Inverse q (e + m * e') prime (unit m e e' is_q low low' other) in
      let (w, found) =
        mod_inverse_complete q (omega (arith, is_q)) (pos e -ℤ pos e') y
          (Cong-mul_right y difference ⊙ inverse) in
      let (product, _) = mod_inverse_sound q (omega (arith, is_q)) (pos e -ℤ pos e') w found in
      (
        emod (pos z -ℤ pos z') q * w,
        rw found refl,
        exponent a m base first e e' z z' w is_q h_order order
              (Cong-mul_right w (Cong-sym difference) ⊙ product) c c'
            ⊙ pow-Cong a.h q _ _ h_order (Cong-mul_right w (emod-difference m z z' is_q)),
      )

  -- Two proofs for one commitment that agree in their first messages and that Verify01 accepts under
  -- hashes with different values for them give the opening of the commitment away: extract_vote,
  -- which sees the two proofs only, computes a vote of 0 or 1 and an exponent of h from them that
  -- open it. The entries of the proofs are not negative, the challenges are less than q, q is a prime,
  -- and q is a multiple of the orders of the bases and of the commitment.
  pub verify01-extract_vote :
      (o o' : Oracle) (x0 x1 y0 y1 z0 z1 y0' y1' z0' z1' c id id' s s' : ℕ)
      → IsGroup a
      → IsPrime q
      → Cong p (c ^ q) 1
      → y0 < q
      → y1 < q
      → y0' < q
      → y1' < q
      → random_oracle o a (pos x0) (pos x1) id ≡ some s
      → random_oracle o' a (pos x0) (pos x1) id' ≡ some s'
      → s ≢ s'
      → verify01 o a (knowledge a x0 x1 y0 y1 z0 z1) (pos c) id ≡ some []
      → verify01 o' a (knowledge a x0 x1 y0' y1' z0' z1') (pos c) id' ≡ some []
      → (r : ℕ × ℕ) × (extract_vote q
            (knowledge a x0 x1 y0 y1 z0 z1)
            (knowledge a x0 x1 y0' y1' z0' z1')
          ≡ some r)
        × (r.0 < 2)
        × Cong p c (a.g ^ r.0 * a.h ^ r.1)
  unfolding extract_vote
  verify01-extract_vote o o' x0 x1 y0 y1 z0 z1 y0' y1' z0' z1' c id id' s s' group prime order l0 l1
        l0' l1' hashed hashed' other v v' =
      let (t, i, h, x, inv, c0, c1) = verify01_sound a o x0 x1 y0 y1 z0 z1 c id v in
      let (t', i', h', x', inv', c0', c1') = verify01_sound a o' x0 x1 y0' y1' z0' z1' c id' v' in
      let (k, inv_k, unit_k) = g_inverse o a group in
      let is_i : k ≡ i = some_inj (sym inv_k ∙ inv) in
      let is_i' : i' ≡ i = some_inj (sym inv' ∙ inv) in
      let inverse : Cong p (a.g * i) 1 = subst (λ (j : ℕ). Cong p (a.g * j) 1) is_i unit_k in
      let is_q : a.prime_q ≡ suc (q - 1) = omega (arith, group.q_big) in
      let xs : xor (pos y1) (pos y0) ≡ pos s = x ∙ ap pos (some_inj (sym h ∙ hashed)) in
      let xs' : xor (pos y1') (pos y0') ≡ pos s' = x' ∙ ap pos (some_inj (sym h' ∙ hashed')) in
      elim (Bool-cases (equal (pos y0) (pos y0'))) [
        | inr apart ↦
            let (w, computed, e) =
              extract_lem (q - 1) c x0 y0 y0' z0 z0' is_q prime group.h_order order l0 l0'
                (apart-equal y0 y0' apart) c0 c0' in
            (
              (0, w),
              rw (apart, computed) refl,
              omega arith,
              e ⊙ Cong-of_eq (rw pow-zero (omega arith)),
            )
        | inl same ↦
            let (w, computed, e) =
              extract_lem (q - 1) (c * i) x1 y1 y1' z1 z1' is_q prime group.h_order
                (Cong-of_eq (mul-pow c i q) ⊙ Cong-mul order (inverse_order i group inverse)) l1 l1'
                (challenges_differ y0 y1 y0' y1' s s' xs xs' other
                  (pos_inj (equal_sound (pos y0) (pos y0') same)))
                c1 (subst (λ (j : ℕ). Cong p (a.h ^ z1') (x1 * (c * j) ^ y1')) is_i' c1') in
            (
              (1, w),
              rw (same, computed) refl,
              omega arith,
              over_g c i w inverse e
                  ⊙ Cong-mul_right (a.h ^ w) (Cong-of_eq (rw (pow-suc, pow-zero) (omega arith))),
            )
      ]
