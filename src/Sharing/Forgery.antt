-- ===== src/Sharing/Forgery.antt =====
-- server/src/SecretSharingImpl.go: RandomOracle hashes the first messages of a proof and the id of the vote,
-- and not the commitment that the proof is about.
use native.Mathlib.Nat.{pow-zero, mod-eq_of_lt}
use digital_election_system.Common.{
  ℕ, zero, suc, ◌+◌, ◌-◌, ◌*◌, ◌%◌, ◌^◌, ◌<◌, ◌≡◌, ◌≢◌, refl, sym, ap, ◌∙◌, subst, true, some, List,
  [], ◌∷◌, arith, length, pos,
}
use digital_election_system.Number.Congruence.{
  Cong, Cong-of_eq, Cong-sym, ◌⊙◌, Cong-mul_left, Cong-mul_right, Cong-add, Cong-add_left,
  Cong-of_multiples,
}
use digital_election_system.Number.Power.{Cong-pow, pow-add, pow-mul, mul-pow, pow-Cong}
use digital_election_system.Number.Prime.{IsPrime, prime-Inverse}
use digital_election_system.Number.Xor.{zero-bit_xor}
use digital_election_system.Number.{xor}
use digital_election_system.Framework.{ZeroKnowledge}
use digital_election_system.Commitment.{ActiveSecretSharing}
use digital_election_system.Commitment.Setup.{IsGroup, commitment, commitment-Cong}
use digital_election_system.Knowledge.{Oracle, random_oracle, verify01}
use digital_election_system.Knowledge.Completeness.{accepting_pos, verify01_lem, g_inverse}
use digital_election_system.Sharing.{verify_share, verify_knowledge}
use digital_election_system.Sharing.Dealing.{integers, commitments, share_at, verify_share-share_at}

module _ (o : Oracle) (a : ActiveSecretSharing) where
  -- First messages that are fixed before there is a commitment.
  abbrev first_real : ℕ → ℕ → ℕ
  first_real alpha beta = a.g ^ alpha * a.h ^ beta

  -- A proof whose second challenge is 0.
  abbrev forged : ℕ → ℕ → ℕ → ℕ → ℕ → ZeroKnowledge
  forged alpha beta gamma r s = record {
    a0 = pos (first_real alpha beta);
    e0 = pos s;
    z0 = pos (beta + r * s);
    a1 = pos (a.h ^ gamma);
    e1 = pos 0;
    z1 = pos gamma;
  }

  -- With alpha + v s ≡ 0 the powers of g cancel.
  opened :
      (v r s alpha beta : ℕ)
      → IsGroup a
      → Cong a.prime_q (alpha + v * s) 0
      → Cong a.prime_p (a.h ^ (beta + r * s)) (first_real alpha beta * commitment a v r ^ s)
  opened v r s alpha beta group zero_sum = Cong-sym (
      Cong-mul_left (first_real alpha beta) (Cong-pow s (commitment-Cong a v r))
      ⊙ Cong-of_eq powers
      ⊙ Cong-mul_right (a.h ^ (beta + r * s))
          (pow-Cong a.g a.prime_q (alpha + v * s) 0 group.g_order zero_sum)
      ⊙ Cong-of_eq (rw pow-zero (omega arith)))
    where
      powers :
          first_real alpha beta * (a.g ^ v * a.h ^ r) ^ s
          ≡ a.g ^ (alpha + v * s) * a.h ^ (beta + r * s)
      powers =
          rw
            (
              mul-pow (a.g ^ v) (a.h ^ r) s,
              pow-add a.g alpha (v * s),
              pow-add a.h beta (r * s),
              pow-mul a.g v s,
              pow-mul a.h r s,
            )
            (omega arith)

  forged-verify01 :
      (v r s alpha beta gamma id : ℕ)
      → IsGroup a
      → random_oracle o a (pos (first_real alpha beta)) (pos (a.h ^ gamma)) id ≡ some s
      → Cong a.prime_q (alpha + v * s) 0
      → verify01 o a (forged alpha beta gamma r s) (pos (commitment a v r)) id ≡ some []
  unfolding xor
  forged-verify01 v r s alpha beta gamma id group hashed zero_sum =
      let (i, inv, _) = g_inverse o a group in
      verify01_lem o a (first_real alpha beta) (a.h ^ gamma) s 0 (beta + r * s) gamma
        (commitment a v r) s i id hashed (ap pos (zero-bit_xor s)) inv
        (accepting_pos o a (commitment a v r) (first_real alpha beta) s (beta + r * s)
          (opened v r s alpha beta group zero_sum))
        (accepting_pos o a (commitment a v r * i) (a.h ^ gamma) 0 gamma
          (Cong-of_eq (rw pow-zero (omega arith))))

  -- The vote for which the sum vanishes.
  vote_for :
      (s alpha : ℕ)
      → IsPrime a.prime_q
      → s % a.prime_q ≢ 0
      → (v : ℕ) × Cong a.prime_q (alpha + v * s) 0
  vote_for s alpha prime unit =
      let (w, inverse) = prime-Inverse a.prime_q s prime unit in
      (
        (a.prime_q - 1) * alpha * w,
        Cong-add (Cong-of_eq refl)
              (Cong-of_eq (shift alpha w s) ⊙ Cong-mul_left ((a.prime_q - 1) * alpha) inverse)
            ⊙ multiple a.prime_q alpha prime.big,
      )
    where
      shift : (alpha w s : ℕ) → (a.prime_q - 1) * alpha * w * s ≡ (a.prime_q - 1) * alpha * (s * w)
      shift alpha w s = omega arith

      multiple : (q alpha : ℕ) → 1 < q → Cong q (alpha + (q - 1) * alpha * 1) 0
      multiple zero alpha h = absurd (omega (arith, h))
      multiple (suc q) alpha h =
          let below : q ≡ suc q - 1 = omega arith in
          subst (λ (m : ℕ). Cong (suc q) (alpha + m * alpha * 1) 0) below
            (Cong-of_multiples (alpha + q * alpha * 1) 0 0 alpha (omega arith))

  -- The vote that the sum determines.
  sum_of :
      (v w s alpha : ℕ)
      → Cong a.prime_q (alpha + v * s) 0
      → v % a.prime_q ≡ w % a.prime_q
      → (alpha + w * s) % a.prime_q ≡ 0 % a.prime_q
  sum_of v w s alpha zero_sum same =
      let vs : Cong a.prime_q (v * s) (w * s) = Cong-mul_right s (record { same = same }) in
      let sums : Cong a.prime_q (alpha + v * s) (alpha + w * s) = Cong-add_left alpha vs in
      sym sums.same ∙ zero_sum.same

  not_zero_vote :
      (v s alpha : ℕ)
      → 1 < a.prime_q
      → Cong a.prime_q (alpha + v * s) 0
      → v % a.prime_q ≡ 0
      → alpha % a.prime_q ≡ 0
  not_zero_vote v s alpha big zero_sum e =
      let h = sum_of v 0 s alpha zero_sum (e ∙ sym (mod-eq_of_lt (omega arith))) in
      ap (λ (t : ℕ). t % a.prime_q) (omega arith) ∙ h ∙ mod-eq_of_lt (omega arith)

  not_one_vote :
      (v s alpha : ℕ)
      → 1 < a.prime_q
      → Cong a.prime_q (alpha + v * s) 0
      → v % a.prime_q ≡ 1
      → (alpha + s) % a.prime_q ≡ 0
  not_one_vote v s alpha big zero_sum e =
      let h = sum_of v 1 s alpha zero_sum (e ∙ sym (mod-eq_of_lt big)) in
      ap (λ (t : ℕ). t % a.prime_q) (omega arith) ∙ h ∙ mod-eq_of_lt (omega arith)

  -- Whoever fixes the first messages before the vote finds, from their hash s, a vote v that is neither 0
  -- nor 1 modulo q and a proof for it that VerifyShare accepts with the share of any point, of
  -- polynomials with the values v and r at 0 and any further coefficients. The prime q divides neither s
  -- nor the drawn exponent alpha nor their sum.
  pub verify_share-forged :
      (alpha beta gamma r s id : ℕ) (fs gs : List ℕ)
      → IsGroup a
      → IsPrime a.prime_q
      → length fs ≡ length gs
      → random_oracle o a (pos (first_real alpha beta)) (pos (a.h ^ gamma)) id ≡ some s
      → s % a.prime_q ≢ 0
      → alpha % a.prime_q ≢ 0
      → (alpha + s) % a.prime_q ≢ 0
      → (v : ℕ) × (zk : ZeroKnowledge) × (v % a.prime_q ≢ 0)
        × (v % a.prime_q ≢ 1)
        × ((x : ℕ)
            → verify_share o a
                (share_at a id (v ∷ fs) (r ∷ gs) x)
                (integers (commitments a (v ∷ fs) (r ∷ gs)))
                (some zk)
              ≡ some true)
  unfolding verify_knowledge digital_election_system.Sharing.first commitments
  verify_share-forged alpha beta gamma r s id fs gs group prime same hashed unit not_zero not_one =
      let (v, zero_sum) = vote_for s alpha prime unit in
      let accepted = forged-verify01 v r s alpha beta gamma id group hashed zero_sum in
      (
        v,
        forged alpha beta gamma r s,
        (λ e. not_zero (not_zero_vote v s alpha prime.big zero_sum e)),
        (λ e. not_one (not_one_vote v s alpha prime.big zero_sum e)),
        λ x.
            verify_share-share_at o a id x (v ∷ fs) (r ∷ gs) (some (forged alpha beta gamma r s))
              group (ap suc same)
            ∙ rw accepted,
      )
