-- ===== src/Controller/Revoke.antt =====
-- server/src/MPCControllerImpl.go: a vote that is added and then revoked.
use digital_election_system.Common.{
  ℕ, zero, suc, ◌+◌, ◌*◌, ◌≤◌, ◌<◌, ◌≡◌, refl, sym, ap, ◌∙◌, true, false, Option, some, List, [],
  ◌∷◌, arith, length, ℤ, pos, negsuc, ◌+ℤ◌, ◌*ℤ◌, ◌>>=◌, bind-some, some_inj, All, subst,
}
use digital_election_system.Number.{emod, exp}
use digital_election_system.Number.Congruence.{Cong, ◌⊙◌, Cong-add, Cong-of_multiples}
use digital_election_system.Number.Residue.{residue, residue-*, residue-+}
use digital_election_system.Framework.{Share, voting}
use digital_election_system.Knowledge.{equal}
use digital_election_system.Knowledge.Equal.{equal_self}
use digital_election_system.Commitment.{ActiveSecretSharing}
use digital_election_system.Commitment.Setup.{IsGroup}
use digital_election_system.Arithmetic.{
  ActiveArithmetic, new_arithmetic, power_proofs, multiply_const,
}
use digital_election_system.Arithmetic.Panics.{sum_share, add-fitting}
use digital_election_system.Arithmetic.Homomorphism.{
  appended-some, power_proofs_lem, residue-emod, InGroup,
}
use digital_election_system.Controller.{
  ActiveMpcController, add_vote, add_votes, add_share, new_share_arrived, revoke_vote, lookup_bool,
}

length-power_proofs :
    (p : ℕ) (a : ℤ) (vs : List ℤ) {cs : List ℤ}
    → power_proofs p a vs ≡ some cs
    → length cs ≡ length vs
unfolding power_proofs
length-power_proofs p a [] h = ap length (sym (some_inj h))
length-power_proofs p a (v ∷ vs) h =
    let (r, _, h1) = bind-some (exp v a p) h in
    let (rest, made, h2) = bind-some (power_proofs p a vs) h1 in
    ap length (sym (some_inj h2)) ∙ ap suc (length-power_proofs p a vs made)

-- (- z) + (z + w) is w, with a reduction after each operation.
negated_back :
    (q : ℕ) (z w : ℤ)
    → 0 < q
    → Cong q
        (residue q (pos (emod (pos (emod (negsuc 0 *ℤ z) q) +ℤ pos (emod (z +ℤ w) q)) q)))
        (residue q w)
unfolding residue
negated_back zero z w h = absurd (omega (arith, h))
negated_back (suc k) z w h =
    residue-emod (suc k) (pos (emod (negsuc 0 *ℤ z) (suc k)) +ℤ pos (emod (z +ℤ w) (suc k))) h
    ⊙ residue-+ (suc k) (pos (emod (negsuc 0 *ℤ z) (suc k))) (pos (emod (z +ℤ w) (suc k))) h
    ⊙ Cong-add (residue-emod (suc k) (negsuc 0 *ℤ z) h ⊙ residue-* (suc k) (negsuc 0) z h)
        (residue-emod (suc k) (z +ℤ w) h ⊙ residue-+ (suc k) z w h)
    ⊙ cancel (residue (suc k) z) (residue (suc k) w)
  where
    cancel : (x y : ℕ) → Cong (suc k) ((0 + k * 1) * x + (x + y)) y
    cancel x y = Cong-of_multiples ((0 + k * 1) * x + (x + y)) y 0 x (omega arith)

-- The shares of the states agree up to multiples of q, and no vote waits.
pub record SameTally (q : ℕ) (before after : ActiveMpcController) : Type 0 where
  pub point : after.state.share.point ≡ before.state.share.point
  pub s : Cong q (residue q after.state.share.s) (residue q before.state.share.s)
  pub t : Cong q (residue q after.state.share.t) (residue q before.state.share.t)
  pub channel : after.state_channel ≡ []

-- NewShareArrived and RevokeVote for one share, each followed by addShare.
pub vote_and_revoke : ActiveMpcController → Share → List ℤ → Option ActiveMpcController
vote_and_revoke p share proof =
    add_share (new_share_arrived p share (some proof))
    >>= (λ p1. revoke_vote p1 share proof >>= (λ p2. add_share p2))

-- The controller that has added a vote.
abbrev with_vote : ActiveMpcController → Share → List ℤ → ActiveMpcController
with_vote p share cs = record {
  arithmetic = p.arithmetic;
  state = record p.state { share = sum_share p.arithmetic share p.state.share; proof = some cs };
  state_channel = [];
  start_share = p.start_share;
  verified_shares = p.verified_shares;
}

add_share-one :
    (p : ActiveMpcController) (share : Share) (v : ℤ) (vs bs : List ℤ)
    → p.state.network ≡ voting
    → p.state_channel ≡ record { share = share; proof = some (v ∷ vs) } ∷ []
    → share.point ≡ p.state.share.point
    → p.state.proof ≡ some bs
    → length (v ∷ vs) ≤ length bs
    → (cs : List ℤ) × (add_share p ≡ some (with_vote p share cs)) × (length cs ≡ length (v ∷ vs))
unfolding add_share add_votes add_vote
add_share-one p share v vs bs voting_now channel at_point state_proof fits =
    let same : equal share.point p.state.share.point ≡ true =
      subst (λ x. equal share.point x ≡ true) at_point (equal_self share.point) in
    let (cs, made, len) =
      add-fitting p.arithmetic share p.state.share (some (v ∷ vs)) bs same fits in
    (
      cs,
      rw (channel, voting_now, state_proof, made, appended-some cs (length vs) len, voting_now),
      len,
    )

abbrev negative : ActiveMpcController → Share → Share
negative p share = record {
  s = pos (emod (negsuc 0 *ℤ share.s) p.arithmetic.prime_q);
  t = pos (emod (negsuc 0 *ℤ share.t) p.arithmetic.prime_q);
  point = share.point;
  id = share.id;
}

-- The controller with one vote in its channel.
abbrev with_channel : ActiveMpcController → Share → List ℤ → ActiveMpcController
with_channel p share proof = record p {
  state_channel = record { share = share; proof = some proof } ∷ [];
}

arrived :
    (p : ActiveMpcController) (share : Share) (proof : List ℤ)
    → p.state.network ≡ voting
    → p.state_channel ≡ []
    → lookup_bool share.id p.verified_shares ≡ false
    → new_share_arrived p share (some proof) ≡ with_channel p share proof
unfolding new_share_arrived
arrived p share proof voting_now empty unseen = rw (voting_now, unseen, empty)

revoked :
    (p : ActiveMpcController) (share : Share) (proof pc : List ℤ)
    → p.state_channel ≡ []
    → power_proofs p.arithmetic.prime_p (negsuc 0) proof ≡ some pc
    → revoke_vote p share proof ≡ some (with_channel p (negative p share) pc)
unfolding revoke_vote multiply_const
revoked p share proof pc empty made = rw (made, empty)

SameTally_lem :
    (p : ActiveMpcController) (share : Share) (cs ds : List ℤ)
    → 0 < p.arithmetic.prime_q
    → share.point ≡ p.state.share.point
    → SameTally p.arithmetic.prime_q p (with_vote (with_vote p share cs) (negative p share) ds)
SameTally_lem p share cs ds h at_point = record {
  point = at_point;
  s = negated_back p.arithmetic.prime_q share.s p.state.share.s h;
  t = negated_back p.arithmetic.prime_q share.t p.state.share.t h;
  channel = refl;
}

-- `pw` and `pc` are the commitments of the negative share.
vote_and_revoke_lem :
    (p : ActiveMpcController) (share : Share) (v : ℤ) (vs bs : List ℤ) (pc : List ℤ)
    → 0 < p.arithmetic.prime_q
    → p.state.network ≡ voting
    → p.state_channel ≡ []
    → lookup_bool share.id p.verified_shares ≡ false
    → share.point ≡ p.state.share.point
    → p.state.proof ≡ some bs
    → length (v ∷ vs) ≤ length bs
    → power_proofs p.arithmetic.prime_p (negsuc 0) (v ∷ vs) ≡ some pc
    → length pc ≡ length (v ∷ vs)
    → (p' : ActiveMpcController) × (vote_and_revoke p share (v ∷ vs) ≡ some p')
      × SameTally p.arithmetic.prime_q p p'
unfolding vote_and_revoke
vote_and_revoke_lem p share v vs bs [] h voting_now empty unseen at_point state_proof fits made
      len =
    absurd (omega (arith, len))
vote_and_revoke_lem p share v vs bs (w ∷ ws) h voting_now empty unseen at_point state_proof fits
      made len =
    let (cs, added, len1) =
      add_share-one (with_channel p share (v ∷ vs)) share v vs bs voting_now refl at_point
        state_proof fits in
    let p1 = with_vote p share cs in
    let (ds, taken, _) =
      add_share-one (with_channel p1 (negative p share) (w ∷ ws)) (negative p share) w ws cs
        voting_now refl refl refl (omega (arith, len, len1)) in
    (
      with_vote p1 (negative p share) ds,
      rw (
        arrived p share (v ∷ vs) voting_now empty unseen,
        added,
        revoked p1 share (v ∷ vs) (w ∷ ws) refl made,
        taken,
      ),
      SameTally_lem p share cs ds h at_point,
    )

module _ (a : ActiveSecretSharing) (group : IsGroup a) where
  -- While voting, with no vote waiting: a vote at the state's point, of an id not marked as verified, with
  -- commitments of the group, at least one and at most as many as the state has, arrives and is added,
  -- and is revoked and added again, without a panic. The share of the state then is the one of before
  -- modulo q at the same point, and no vote waits. The controller's primes are those of the session.
  pub vote_and_revoke-SameTally :
      (p : ActiveMpcController) (share : Share) (v : ℤ) (vs bs : List ℤ)
      → p.arithmetic ≡ new_arithmetic a.prime_p a.prime_q
      → p.state.network ≡ voting
      → p.state_channel ≡ []
      → lookup_bool share.id p.verified_shares ≡ false
      → share.point ≡ p.state.share.point
      → All (InGroup a group) (v ∷ vs)
      → p.state.proof ≡ some bs
      → length (v ∷ vs) ≤ length bs
      → (p' : ActiveMpcController) × (vote_and_revoke p share (v ∷ vs) ≡ some p')
        × SameTally a.prime_q p p'
  unfolding vote_and_revoke
  vote_and_revoke-SameTally p share v vs bs arithmetic_at voting_now empty unseen at_point inside
        state_proof fits =
      let (pc, made, _) = power_proofs_lem a group 0 0 (negsuc 0) (v ∷ vs) inside in
      let made' : power_proofs p.arithmetic.prime_p (negsuc 0) (v ∷ vs) ≡ some pc =
        subst (λ (r : ActiveArithmetic). power_proofs r.prime_p (negsuc 0) (v ∷ vs) ≡ some pc)
          (sym arithmetic_at) made in
      let h : 0 < p.arithmetic.prime_q =
        subst (λ (r : ActiveArithmetic). 0 < r.prime_q) (sym arithmetic_at)
          (omega (arith, group.q_big)) in
      let (p', runs, same) =
        vote_and_revoke_lem p share v vs bs pc h voting_now empty unseen at_point state_proof fits
          made' (length-power_proofs p.arithmetic.prime_p (negsuc 0) (v ∷ vs) made') in
      (p', runs, subst (λ (r : ActiveArithmetic). SameTally r.prime_q p p') arithmetic_at same)
