-- ===== src/Arithmetic/Fits.antt =====
-- server/src/SecretSharingImpl.go: the equation that VerifyShare tests, over residues.
use native.Mathlib.Nat.{mod-mod, pow-suc}
use digital_election_system.Common.{
  ℕ, zero, suc, ◌+◌, ◌*◌, ◌%◌, ◌^◌, ◌<◌, ◌≡◌, ◌↔◌, refl, sym, ap, ◌∙◌, Bool, true, false,
  Bool-cases, inl, inr, none, some, some_inj, ==_iff, List, [], ◌∷◌, arith, ◌==◌, if◌then◌else◌, ℤ,
  pos, negsuc,
}
use digital_election_system.Number.Congruence.{
  Cong, Cong-of_eq, Cong-sym, ◌⊙◌, Cong-mod, Cong-mul, Cong-mul_left, Cong-mul_right,
}
use digital_election_system.Number.Power.{Cong-pow, pow-mul, pow_inverse}
use digital_election_system.Number.Residue.{residue, emod-eq, emod_pos}
use digital_election_system.Number.Inverse.{mod_inverse_sound, mod_inverse_complete}
use digital_election_system.Number.{emod, exp}
use digital_election_system.Framework.{Share}
use digital_election_system.Commitment.{ActiveSecretSharing, bc}
use digital_election_system.Commitment.Setup.{IsGroup}
use digital_election_system.Knowledge.{Oracle}
use digital_election_system.Sharing.Dealing.{power_pos}
use digital_election_system.Sharing.{proof_loop, verify_share, verify_knowledge}

module _ (p m : ℕ) (big : 0 < p) where
  residue-emod : (v : ℤ) → Cong p (emod v p) (residue p v)
  residue-emod v = Cong-of_eq (emod-eq p v big) ⊙ Cong-mod (residue p v)

  -- In the group of order suc m an inverse is a power.
  inverse_power : (b i : ℕ) → Cong p (b ^ suc m) 1 → Cong p (b * i) 1 → Cong p i (b ^ m)
  inverse_power b i order inverse =
      Cong-of_eq (omega arith)
      ⊙ Cong-mul_left i (Cong-sym order)
      ⊙ Cong-of_eq (rw (pow-suc b m) (omega arith))
      ⊙ Cong-mul_left (b ^ m) inverse
      ⊙ Cong-of_eq (omega arith)

  exp-suc :
      (v z : ℤ)
      → Cong p (emod v p ^ suc m) 1
      → (r : ℕ) × (exp v z p ≡ some r) × Cong p r (emod v p ^ residue (suc m) z) × (r % p ≡ r)
  unfolding exp residue
  exp-suc v (pos n) order = (
    emod v p ^ n % p,
    refl,
    Cong-mod _ ⊙ Cong-of_eq (ap (λ (t : ℕ). emod v p ^ t) (omega arith)),
    mod-mod _ p,
  )
  exp-suc v (negsuc n) order =
      let (i, found) = mod_inverse_complete p big v (emod v p ^ m) (
        Cong-mul_right (emod v p ^ m) (Cong-sym (residue-emod v))
        ⊙ pow_inverse (emod v p) m order) in
      (
        i ^ suc n % p,
        rw found refl,
        Cong-mod _
            ⊙ Cong-pow (suc n) (
                inverse_power (emod v p) i order
                  (Cong-mul_right i (residue-emod v) ⊙ (mod_inverse_sound p big v i found).0))
            ⊙ Cong-of_eq
                (sym (pow-mul (emod v p) m (suc n)) ∙ ap (λ (t : ℕ). emod v p ^ t) (omega arith)),
        mod-mod _ p,
      )

-- Exp with an exponent of either sign, for a base of an order that divides q: the power by the
-- exponent's residue modulo q.
pub exp_lem :
    (p q : ℕ) (v z : ℤ)
    → 0 < p
    → 0 < q
    → Cong p (emod v p ^ q) 1
    → (r : ℕ) × (exp v z p ≡ some r) × Cong p r (emod v p ^ residue q z) × (r % p ≡ r)
exp_lem p zero v z big q_big order = absurd (omega arith)
exp_lem p (suc m) v z big q_big order = exp-suc p m big v z order

-- The commitments of a vote, each to the power of its place in the point.
unfoldable pub proof_value : ℕ → ℕ → ℕ → List ℤ → ℕ
proof_value p x i [] = 1
proof_value p x i (v ∷ vs) = emod v p ^ (x ^ i) * proof_value p x (i + 1) vs

proof_loop_lem :
    (p x acc i : ℕ) (vs : List ℤ)
    → (r : ℕ) × (proof_loop p (pos x) acc i vs ≡ some r) × Cong p r (acc * proof_value p x i vs)
unfolding proof_loop proof_value exp
proof_loop_lem p x acc i [] = (acc, refl, Cong-of_eq (omega arith))
proof_loop_lem p x acc i (v ∷ vs) =
    let (r, e, c) = proof_loop_lem p x (acc * (emod v p ^ (x ^ i) % p)) (i + 1) vs in
    (
      r,
      rw (power_pos x i) e,
      c
          ⊙ Cong-mul_right (proof_value p x (i + 1) vs)
              (Cong-mul_left acc (Cong-mod (emod v p ^ (x ^ i))))
          ⊙ Cong-of_eq (omega arith),
    )

module _ (a : ActiveSecretSharing) (group : IsGroup a) where
  order_of :
      (b : ℕ)
      → Cong a.prime_p (b ^ a.prime_q) 1
      → Cong a.prime_p (emod (pos b) a.prime_p ^ a.prime_q) 1
  order_of b order = Cong-pow a.prime_q (Cong-of_eq (emod_pos b a.prime_p) ⊙ Cong-mod b) ⊙ order

  base_power :
      (b : ℕ) (z : ℤ)
      → Cong a.prime_p (b ^ a.prime_q) 1
      → (r : ℕ) × (exp (pos b) z a.prime_p ≡ some r) × Cong a.prime_p r (b ^ residue a.prime_q z)
  base_power b z order =
      let (r, e, c, _) =
        exp_lem a.prime_p a.prime_q (pos b) z (omega (arith, group.p_big))
          (omega (arith, group.q_big)) (order_of b order) in
      (r, e, c ⊙ Cong-pow (residue a.prime_q z) (Cong-of_eq (emod_pos b a.prime_p) ⊙ Cong-mod b))

  -- The commitment to any two integers.
  pub bc_lem :
      (s t : ℤ)
      → (c : ℕ) × (bc a s t ≡ some (c % a.prime_p))
        × Cong a.prime_p c (a.g ^ residue a.prime_q s * a.h ^ residue a.prime_q t)
  unfolding bc
  bc_lem s t =
      let (r, e, c) = base_power a.g s group.g_order in
      let (r', e', c') = base_power a.h t group.h_order in (r * r', rw (e, e') refl, Cong-mul c c')

  -- The equation that a share at the point x has to satisfy.
  abbrev pub Fits : ℤ → ℤ → ℕ → List ℤ → Type 0
  Fits s t x proof =
      Cong a.prime_p (a.g ^ residue a.prime_q s * a.h ^ residue a.prime_q t)
        (proof_value a.prime_p x 0 proof)

  tested :
      (o : Oracle) (id : ℕ) (proof : List ℤ) (m n : ℕ)
      → (b : Bool) × ((if m == n then verify_knowledge o a id proof none else some false) ≡ some b)
        × ((b ≡ true) ↔ (m ≡ n))
  unfolding verify_knowledge
  tested o id proof m n = (
    m == n,
    elim (Bool-cases (m == n)) [ inl same ↦ rw same refl | inr other ↦ rw other refl ],
    ==_iff m n,
  )

  -- VerifyShare without a proof of knowledge returns for every share at a point that is not negative,
  -- if both bases have an order that divides q, and what it returns is true exactly if the share
  -- satisfies the equation of the commitments.
  pub verify_share_lem :
      (o : Oracle) (share : Share) (x : ℕ) (proof : List ℤ)
      → share.point ≡ pos x
      → (b : Bool) × (verify_share o a share proof none ≡ some b)
        × ((b ≡ true) ↔ Fits share.s share.t x proof)
  unfolding verify_share
  verify_share_lem o share x proof at_x =
      let (c, e, cc') = bc_lem share.s share.t in
      let (r, e', cr) = proof_loop_lem a.prime_p x 1 0 proof in
      let (b, is_b, same) = tested o share.id proof (c % a.prime_p) (r % a.prime_p) in
      (
        b,
        rw (e, at_x, e') is_b,
        (
          λ h. Cong-sym cc' ⊙ record { same = same.0 h } ⊙ cr ⊙ Cong-of_eq (omega arith),
          λ f. same.1 (cc' ⊙ f ⊙ Cong-of_eq (omega arith) ⊙ Cong-sym cr).same,
        ),
      )

  pub verify_share-Fits :
      (o : Oracle) (share : Share) (x : ℕ) (proof : List ℤ)
      → share.point ≡ pos x
      → (verify_share o a share proof none ≡ some true) ↔ Fits share.s share.t x proof
  verify_share-Fits o share x proof at_x =
      let (b, is_b, same) = verify_share_lem o share x proof at_x in
      (λ h. same.0 (some_inj (sym is_b ∙ h)), λ f. is_b ∙ ap some (same.1 f))
