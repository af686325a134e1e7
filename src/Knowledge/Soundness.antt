-- ===== src/Knowledge/Soundness.antt =====
-- server/src/SecretSharingImpl.go: what Verify01 on two proofs with the same first messages shows.
use native.Mathlib.Nat.{pow-zero, pow-suc, mod-eq_of_lt}
use digital_election_system.Common.{
  ℕ, suc, ◌+◌, ◌*◌, ◌%◌, ◌^◌, ◌<◌, ◌≡◌, ◌≢◌, refl, sym, ap, ◌∙◌, subst, Bool, true, false, ◌&&◌,
  some, bind-some, some_inj, [], ◌∷◌, ◌++◌, arith, ==_iff, if◌then◌else◌, pos, ◌*ℤ◌,
}
use digital_election_system.Number.Congruence.{
  Cong, Cong-of_eq, Cong-sym, ◌⊙◌, Cong-mod, Cong-mul_left, Cong-mul_right, Cong-add_right,
  Cong-of_multiples,
}
use digital_election_system.Number.Power.{Cong-pow, pow-add, pow-mul, one-pow, pow-Cong}
use digital_election_system.Number.Residue.{pos-*ℤ, emod_pos}
use digital_election_system.Number.{emod, exp, mod_inverse, xor}
use digital_election_system.Framework.{ZeroKnowledge}
use digital_election_system.Commitment.{ActiveSecretSharing}
use digital_election_system.Knowledge.{
  Oracle, random_oracle, accepting, verify01, equal, xor_mismatch, non_accepting,
}
use digital_election_system.Knowledge.Equal.{equal_sound}

module _ (a : ActiveSecretSharing) where
  abbrev p : ℕ
  p = a.prime_p

  abbrev q : ℕ
  q = a.prime_q

  accepting_sound :
      (o : Oracle) (base first e z : ℕ)
      → accepting o a (pos base) (pos first) (pos e) (pos z) ≡ some true
      → Cong p (a.h ^ z) (first * base ^ e)
  unfolding accepting exp emod
  accepting_sound o base first e z h =
      Cong-sym (Cong-pow z (Cong-mod a.h))
      ⊙ Cong-sym (Cong-mod _)
      ⊙ Cong-of_eq ((==_iff _ _).0 (some_inj h) ∙ ap (λ t. emod t p) (pos-*ℤ _ _) ∙ emod_pos _ p)
      ⊙ Cong-mod _
      ⊙ Cong-mul_left first (Cong-mod _ ⊙ Cong-pow e (Cong-mod base))

  pub differs : (m e e' : ℕ) → e < suc m → e' < suc m → e ≢ e' → (e + m * e') % suc m ≢ 0
  differs m e e' low low' other zero_sum =
      let sum : Cong (suc m) (e + m * e' + e') (0 + e') =
        Cong-add_right e' (record { same = zero_sum ∙ sym (mod-eq_of_lt (omega arith)) }) in
      let whole : Cong (suc m) (e + m * e' + e') e =
        Cong-of_multiples (e + m * e' + e') e 0 e' (omega arith) in
      let same : e % suc m ≡ e' % suc m =
        sym whole.same ∙ sum.same ∙ ap (λ (t : ℕ). t % suc m) (omega arith) in
      other (sym (mod-eq_of_lt low) ∙ same ∙ mod-eq_of_lt low')

  -- A power by a multiple of the order is 1.
  whole_order : (m b e : ℕ) → Cong p (b ^ suc m) 1 → Cong p (b ^ (e + m * e)) 1
  whole_order m b e order =
      Cong-of_eq (ap (λ (t : ℕ). b ^ t) (omega arith) ∙ pow-mul b (suc m) e)
      ⊙ Cong-pow e order
      ⊙ Cong-of_eq (one-pow e)

  -- The first message cancels.
  cross :
      (base first e e' z z' : ℕ)
      → Cong p (a.h ^ z) (first * base ^ e)
      → Cong p (a.h ^ z') (first * base ^ e')
      → Cong p (a.h ^ z * base ^ e') (a.h ^ z' * base ^ e)
  cross base first e e' z z' c c' =
      Cong-mul_right (base ^ e') c
      ⊙ Cong-of_eq (omega arith)
      ⊙ Cong-mul_right (base ^ e) (Cong-sym c')

  difference :
      (m base first e e' z z' : ℕ)
      → Cong p (base ^ suc m) 1
      → Cong p (a.h ^ suc m) 1
      → Cong p (a.h ^ z) (first * base ^ e)
      → Cong p (a.h ^ z') (first * base ^ e')
      → Cong p (base ^ (e + m * e')) (a.h ^ (z + m * z'))
  difference m base first e e' z z' order h_order c c' =
      Cong-of_eq (omega arith)
      ⊙ Cong-mul_right (base ^ (e + m * e')) (Cong-sym (whole_order m a.h z' h_order))
      ⊙ Cong-of_eq (rw (pow-add a.h z' (m * z'), pow-add base e (m * e')) (omega arith))
      ⊙ Cong-mul_right (a.h ^ (m * z') * base ^ (m * e'))
          (Cong-sym (cross base first e e' z z' c c'))
      ⊙ Cong-of_eq (rw (pow-add a.h z (m * z'), pow-add base e' (m * e')) (omega arith))
      ⊙ Cong-mul_left (a.h ^ (z + m * z')) (whole_order m base e' order)
      ⊙ Cong-of_eq (omega arith)

  -- Two accepted conversations with one first message and two challenges give the exponent of the base.
  pub exponent :
      (m base first e e' z z' w : ℕ)
      → a.prime_q ≡ suc m
      → Cong p (a.h ^ q) 1
      → Cong p (base ^ q) 1
      → Cong q ((e + m * e') * w) 1
      → Cong p (a.h ^ z) (first * base ^ e)
      → Cong p (a.h ^ z') (first * base ^ e')
      → Cong p base (a.h ^ ((z + m * z') * w))
  exponent m base first e e' z z' w is_q h_order order inverse c c' =
      let powers =
        difference m base first e e' z z' (subst (λ (n : ℕ). Cong p (base ^ n) 1) is_q order)
          (subst (λ (n : ℕ). Cong p (a.h ^ n) 1) is_q h_order) c c' in
      Cong-of_eq (rw (pow-suc, pow-zero) (omega arith))
      ⊙ Cong-sym (pow-Cong base q ((e + m * e') * w) 1 order inverse)
      ⊙ Cong-of_eq (pow-mul base (e + m * e') w)
      ⊙ Cong-pow w powers
      ⊙ Cong-of_eq (sym (pow-mul a.h (z + m * z') w))

  no_errors :
      (b b0 b1 : Bool)
      → (if b then [] else xor_mismatch ∷ []) ++ (if b0 && b1 then [] else non_accepting b0 b1 ∷ [])
        ≡ []
      → (b ≡ true) × (b0 ≡ true) × (b1 ≡ true)
  no_errors true true true h = (refl, refl, refl)
  no_errors true true false h = absurd (cc)
  no_errors true false b1 h = absurd (cc)
  no_errors false b0 b1 h = absurd (cc)

  -- A proof with challenges and answers that are not negative.
  abbrev pub knowledge : ℕ → ℕ → ℕ → ℕ → ℕ → ℕ → ZeroKnowledge
  knowledge x0 x1 y0 y1 z0 z1 = record {
    a0 = pos x0;
    e0 = pos y0;
    z0 = pos z0;
    a1 = pos x1;
    e1 = pos y1;
    z1 = pos z1;
  }

  pub verify01_sound :
      (o : Oracle) (x0 x1 y0 y1 z0 z1 c id : ℕ)
      → verify01 o a (knowledge x0 x1 y0 y1 z0 z1) (pos c) id ≡ some []
      → (s : ℕ) × (i : ℕ) × (random_oracle o a (pos x0) (pos x1) id ≡ some s)
        × (xor (pos y1) (pos y0) ≡ pos s)
        × (mod_inverse (pos a.g) p ≡ some i)
        × Cong p (a.h ^ z0) (x0 * c ^ y0)
        × Cong p (a.h ^ z1) (x1 * (c * i) ^ y1)
  unfolding verify01
  verify01_sound o x0 x1 y0 y1 z0 z1 c id h =
      let (s, hashed, h1) = bind-some (random_oracle o a (pos x0) (pos x1) id) h in
      let (i, inv, h2) = bind-some (mod_inverse (pos a.g) a.prime_p) h1 in
      let (b0, acc0, h3) = bind-some (accepting o a (pos c) (pos x0) (pos y0) (pos z0)) h2 in
      let (b1, acc1, h4) =
        bind-some (accepting o a (pos c *ℤ pos i) (pos x1) (pos y1) (pos z1)) h3 in
      let (ok, ok0, ok1) = no_errors (equal (xor (pos y1) (pos y0)) (pos s)) b0 b1 (some_inj h4) in
      (
        s,
        i,
        hashed,
        equal_sound (xor (pos y1) (pos y0)) (pos s) ok,
        inv,
        accepting_sound o c x0 y0 z0 (acc0 ∙ ap some ok0),
        accepting_sound o (c * i) x1 y1 z1 (
            ap (λ t. accepting o a t (pos x1) (pos y1) (pos z1)) (sym (pos-*ℤ c i))
            ∙ acc1
            ∙ ap some ok1),
      )
