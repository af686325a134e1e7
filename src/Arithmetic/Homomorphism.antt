-- ===== src/Arithmetic/Homomorphism.antt =====
-- server/src/ArithmeticLogicImpl.go: VerifyShare on what Add and Multiply_const return.
use digital_election_system.Common.{
  ℕ, suc, ◌+◌, ◌*◌, ◌^◌, ◌<◌, ◌≡◌, refl, sym, ap, ◌∙◌, true, none, some, List, [], ◌∷◌, arith,
  length, All, ℤ, pos, ◌+ℤ◌, ◌*ℤ◌,
}
use digital_election_system.Number.Congruence.{Cong, Cong-of_eq, Cong-sym, ◌⊙◌, Cong-mod, Cong-mul}
use digital_election_system.Number.Power.{Cong-pow, pow-add, pow-mul, mul-pow, pow-Cong, one-pow}
use digital_election_system.Number.Residue.{
  residue, residue_pos, residue-*, residue-+, emod-eq, emod_pos,
}
use digital_election_system.Number.{emod}
use digital_election_system.Framework.{Share}
use digital_election_system.Commitment.{ActiveSecretSharing}
use digital_election_system.Commitment.Setup.{IsGroup}
use digital_election_system.Knowledge.{Oracle}
use digital_election_system.Knowledge.Equal.{equal_self}
use digital_election_system.Sharing.{verify_share}
use digital_election_system.Arithmetic.Fits.{exp_lem, proof_value, verify_share-Fits}
use digital_election_system.Arithmetic.{
  ActiveArithmetic, new_arithmetic, validate, multiply_proofs, appended, add, power_proofs,
  multiply_const,
}

emod-Cong : (m : ℕ) (z : ℤ) → 0 < m → Cong m (emod z m) (residue m z)
emod-Cong m z h = Cong-of_eq (emod-eq m z h) ⊙ Cong-mod (residue m z)

pub validate_same : (a b : Share) → a.point ≡ b.point → validate a b ≡ some tt
unfolding validate
validate_same a b e = rw (← e, equal_self a.point) refl

pub appended-some : (vs : List ℤ) (n : ℕ) → length vs ≡ suc n → appended vs ≡ some vs
appended-some [] n e = absurd (omega arith)
appended-some (v ∷ vs) n e = refl

-- The remainder of an integer, as an integer, is congruent to it.
pub residue-emod : (m : ℕ) (z : ℤ) → 0 < m → Cong m (residue m (pos (emod z m))) (residue m z)
residue-emod m z h = Cong-of_eq (residue_pos m (emod z m)) ⊙ emod-Cong m z h

pub multiply_proofs_lem :
    (p x i : ℕ) (as' bs : List ℤ)
    → 0 < p
    → length as' ≡ length bs
    → (cs : List ℤ) × (multiply_proofs p as' bs ≡ some cs)
      × Cong p (proof_value p x i cs) (proof_value p x i as' * proof_value p x i bs)
      × (length cs ≡ length as')
unfolding multiply_proofs proof_value
multiply_proofs_lem p x i [] [] h e = ([], refl, Cong-of_eq (omega arith), refl)
multiply_proofs_lem p x i [] (b ∷ bs) h e = absurd (omega arith)
multiply_proofs_lem p x i (a ∷ as') [] h e = absurd (omega arith)
multiply_proofs_lem p x i (a ∷ as') (b ∷ bs) h e =
    let (cs, made, c, len) = multiply_proofs_lem p x (i + 1) as' bs h (omega arith) in
    (
      pos (emod (a *ℤ b) p) ∷ cs,
      rw made refl,
      Cong-mul (Cong-pow (x ^ i) entry ⊙ Cong-of_eq (mul-pow (emod a p) (emod b p) (x ^ i))) c
          ⊙ Cong-of_eq (omega arith),
      omega arith,
    )
  where
    entry : Cong p (emod (pos (emod (a *ℤ b) p)) p) (emod a p * emod b p)
    entry =
        emod-Cong p (pos (emod (a *ℤ b) p)) h
        ⊙ residue-emod p (a *ℤ b) h
        ⊙ residue-* p a b h
        ⊙ Cong-sym (Cong-mul (emod-Cong p a h) (emod-Cong p b h))

module _ (a : ActiveSecretSharing) (group : IsGroup a) where
  abbrev arithmetic : ActiveArithmetic
  arithmetic = new_arithmetic a.prime_p a.prime_q

  power_sum :
      (b : ℕ) (s t : ℤ)
      → Cong a.prime_p (b ^ a.prime_q) 1
      → Cong a.prime_p
          (b ^ residue a.prime_q (pos (emod (s +ℤ t) a.prime_q)))
          (b ^ residue a.prime_q s * b ^ residue a.prime_q t)
  power_sum b s t order =
      pow-Cong b a.prime_q _ (residue a.prime_q s + residue a.prime_q t) order (
        residue-emod a.prime_q (s +ℤ t) (omega (arith, group.q_big))
        ⊙ residue-+ a.prime_q s t (omega (arith, group.q_big)))
      ⊙ Cong-of_eq (pow-add b (residue a.prime_q s) (residue a.prime_q t))

  -- Add returns for two shares of one point with equally many commitments, at least one. If VerifyShare
  -- accepts each of the shares with its commitments, it accepts the sum with the product of them.
  pub verify_share-add :
      (o : Oracle) (x : ℕ) (sa sb : Share) (v : ℤ) (pa pb : List ℤ)
      → sa.point ≡ pos x
      → sb.point ≡ pos x
      → length (v ∷ pa) ≡ length pb
      → verify_share o a sa (v ∷ pa) none ≡ some true
      → verify_share o a sb pb none ≡ some true
      → (c : Share) × (pc : List ℤ) × (add arithmetic sa sb (some (v ∷ pa)) (some pb)
          ≡ some (c, some pc))
        × (verify_share o a c pc none ≡ some true)
        × (length pc ≡ length pb)
  unfolding add
  verify_share-add o x sa sb v pa pb ea eb len va vb =
      let (pc, made, c, len') =
        multiply_proofs_lem a.prime_p x 0 (v ∷ pa) pb (omega (arith, group.p_big)) len in
      let whole = made_whole pc made len' in
      (
        _,
        pc,
        whole,
        (verify_share-Fits a group o _ x pc ea).1 (
            Cong-mul (power_sum a.g sa.s sb.s group.g_order) (power_sum a.h sa.t sb.t group.h_order)
            ⊙ Cong-of_eq (exchange _ _ _ _)
            ⊙ Cong-mul ((verify_share-Fits a group o sa x (v ∷ pa) ea).0 va)
                ((verify_share-Fits a group o sb x pb eb).0 vb)
            ⊙ Cong-sym c),
        omega arith,
      )
    where
      exchange : (u v w z : ℕ) → u * v * (w * z) ≡ u * w * (v * z)
      exchange u v w z = omega arith

      made_whole :
          (pc : List ℤ)
          → multiply_proofs a.prime_p (v ∷ pa) pb ≡ some pc
          → length pc ≡ length (v ∷ pa)
          → add arithmetic sa sb (some (v ∷ pa)) (some pb)
            ≡ some (
              record {
                s = pos (emod (sa.s +ℤ sb.s) a.prime_q);
                t = pos (emod (sa.t +ℤ sb.t) a.prime_q);
                point = sa.point;
                id = sa.id;
              },
              some pc,
            )
      made_whole pc made len' =
          rw (validate_same sa sb (ea ∙ sym eb), made, appended-some pc (length pa) len') refl

  power_product :
      (b : ℕ) (z s : ℤ)
      → Cong a.prime_p (b ^ a.prime_q) 1
      → Cong a.prime_p
          (b ^ residue a.prime_q (pos (emod (z *ℤ s) a.prime_q)))
          ((b ^ residue a.prime_q s) ^ residue a.prime_q z)
  power_product b z s order =
      pow-Cong b a.prime_q _ (residue a.prime_q s * residue a.prime_q z) order (
        residue-emod a.prime_q (z *ℤ s) (omega (arith, group.q_big))
        ⊙ residue-* a.prime_q z s (omega (arith, group.q_big))
        ⊙ Cong-of_eq (omega arith))
      ⊙ Cong-of_eq (pow-mul b (residue a.prime_q s) (residue a.prime_q z))

  -- A commitment lies in the group of order q.
  abbrev pub InGroup : ℤ → Type 0
  InGroup v = Cong a.prime_p (emod v a.prime_p ^ a.prime_q) 1

  pub power_proofs_lem :
      (x i : ℕ) (z : ℤ) (vs : List ℤ)
      → All InGroup vs
      → (cs : List ℤ) × (power_proofs a.prime_p z vs ≡ some cs)
        × Cong a.prime_p
            (proof_value a.prime_p x i cs)
            (proof_value a.prime_p x i vs ^ residue a.prime_q z)
  unfolding power_proofs proof_value
  power_proofs_lem x i z [] h = ([], refl, Cong-of_eq (sym (one-pow (residue a.prime_q z))))
  power_proofs_lem x i z (v ∷ vs) h =
      let (r, e, c, _) =
        exp_lem a.prime_p a.prime_q v z (omega (arith, group.p_big)) (omega (arith, group.q_big))
          h.0 in
      let (cs, made, c') = power_proofs_lem x (i + 1) z vs h.1 in
      (
        pos r ∷ cs,
        rw (e, made) refl,
        Cong-mul
              (Cong-pow (x ^ i) (Cong-of_eq (emod_pos r a.prime_p) ⊙ Cong-mod r ⊙ c)
                ⊙ Cong-of_eq (swap_powers (emod v a.prime_p) (residue a.prime_q z) (x ^ i)))
              c'
            ⊙ Cong-of_eq (
                sym (
                  mul-pow (emod v a.prime_p ^ (x ^ i)) (proof_value a.prime_p x (i + 1) vs)
                    (residue a.prime_q z))),
      )
    where
      swap_powers : (b m n : ℕ) → (b ^ m) ^ n ≡ (b ^ n) ^ m
      swap_powers b m n = sym (pow-mul b m n) ∙ ap (λ (t : ℕ). b ^ t) (omega arith) ∙ pow-mul b n m

  -- Multiply_const returns for every integer factor, a negative one too, if the commitments lie in the
  -- group of order q. If VerifyShare accepts the share with its commitments, it accepts the multiple
  -- with their powers.
  pub verify_share-multiply_const :
      (o : Oracle) (x : ℕ) (share : Share) (z : ℤ) (proof : List ℤ)
      → share.point ≡ pos x
      → All InGroup proof
      → verify_share o a share proof none ≡ some true
      → (c : Share) × (pc : List ℤ) × (multiply_const arithmetic share z proof ≡ some (c, some pc))
        × (verify_share o a c pc none ≡ some true)
  unfolding multiply_const
  verify_share-multiply_const o x share z proof at_x inside v =
      let (pc, made, c) = power_proofs_lem x 0 z proof inside in
      (
        record {
          s = pos (emod (z *ℤ share.s) a.prime_q);
          t = pos (emod (z *ℤ share.t) a.prime_q);
          point = share.point;
          id = share.id;
        },
        pc,
        rw made refl,
        (verify_share-Fits a group o _ x pc at_x).1 (
            Cong-mul (power_product a.g z share.s group.g_order)
              (power_product a.h z share.t group.h_order)
            ⊙ Cong-of_eq (sym (mul-pow _ _ (residue a.prime_q z)))
            ⊙ Cong-pow (residue a.prime_q z) ((verify_share-Fits a group o share x proof at_x).0 v)
            ⊙ Cong-sym c),
      )
