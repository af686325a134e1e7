-- ===== src/Network/Runs/Keeping.antt =====
-- server/src/NetworkHTTPSImpl.go: the parts of a handler that pass no vote on.
use digital_election_system.Common.{
  ℕ, suc, ◌≡◌, refl, sym, ap, ◌∙◌, subst, Bool, true, false, Bool-cases, inl, inr, Option-cases,
  none, some, List, [], ◌∷◌, ◌++◌, ℤ, if◌then◌else◌, arith,
}
use digital_election_system.Commitment.{ActiveSecretSharing}
use digital_election_system.Framework.{Share}
use digital_election_system.Knowledge.{Oracle}
use digital_election_system.Sharing.{verify_share}
use digital_election_system.Network.{
  done, ◌>=>◌, must, SignedEncryptedShare, ChallengeVoteStruct, EncryptedShareSeenFrom, Event,
  challenge, new_share_arrived, revoke_vote, Network, Platform, lookup_id, store, received, lock,
  unlock, observe, transform_encrypted_share_list,
}
use digital_election_system.Network.Store.{
  step-done, done_inj, if-done, delivered_at, delivered_at-store_id, bit, delivered_entries,
  delivered_entries-store_id, UniqueIds, UniqueIds-store_id, lock-delivered, unlock-delivered,
}
use digital_election_system.Network.Opening.{find_point}
use digital_election_system.Network.Participants.{flood}
use digital_election_system.Network.Challenges.{
  enough, challenged_share, judge_challenge, open_challenge, answer_challenge, challenge_vote,
  challenge_votes,
}

-- How many votes the observer was told of.
unfoldable pub arrivals : List Event → ℕ
arrivals [] = 0
arrivals (new_share_arrived share proof ∷ l) = suc (arrivals l)
arrivals (revoke_vote share proof ∷ l) = arrivals l

pub arrivals-append_arrived :
    (l : List Event) (share : Share) (proof : List ℤ)
    → arrivals (l ++ new_share_arrived share proof ∷ []) ≡ suc (arrivals l)
unfolding arrivals
arrivals-append_arrived [] share proof = refl
arrivals-append_arrived (new_share_arrived s v ∷ l) share proof =
    ap suc (arrivals-append_arrived l share proof)
arrivals-append_arrived (revoke_vote s v ∷ l) share proof = arrivals-append_arrived l share proof

arrivals-append_revoked :
    (l : List Event) (share : Share) (proof : List ℤ)
    → arrivals (l ++ revoke_vote share proof ∷ []) ≡ arrivals l
unfolding arrivals
arrivals-append_revoked [] share proof = refl
arrivals-append_revoked (new_share_arrived s v ∷ l) share proof =
    ap suc (arrivals-append_revoked l share proof)
arrivals-append_revoked (revoke_vote s v ∷ l) share proof = arrivals-append_revoked l share proof

-- No vote is passed on and no mark is changed.
pub record Keeps (n n' : Network) : Type 0 where
  pub flags : (k : ℕ) → delivered_at k n'.received_shares ≡ delivered_at k n.received_shares
  pub votes : arrivals n'.observed ≡ arrivals n.observed
  pub marks : delivered_entries n'.received_shares ≡ delivered_entries n.received_shares
  pub ids : UniqueIds n.received_shares → UniqueIds n'.received_shares

pub Keeps-refl : (n : Network) → Keeps n n
Keeps-refl n = record { flags = λ k. refl; votes = refl; marks = refl; ids = λ u. u }

pub Keeps-trans : {l m n : Network} → Keeps l m → Keeps m n → Keeps l n
Keeps-trans h k = record {
  flags = λ i. k.flags i ∙ h.flags i;
  votes = k.votes ∙ h.votes;
  marks = k.marks ∙ h.marks;
  ids = λ u. k.ids (h.ids u);
}

pub Keeps-store :
    (k : ℕ) (e : EncryptedShareSeenFrom) (n : Network)
    → e.delivered ≡ delivered_at k n.received_shares
    → Keeps n (store k e n)
Keeps-store k e n h = record {
  flags = λ j. delivered_at-store_id j k e n.received_shares h;
  votes = refl;
  marks = omega (arith, delivered_entries-store_id k e n.received_shares, ap bit h);
  ids = UniqueIds-store_id k e n.received_shares;
}

pub Keeps-done : {n m n' : Network} → Keeps n m → done m ≡ done n' → Keeps n n'
Keeps-done {n = n} h d = subst (Keeps n) (done_inj d) h

pub delivered_at-lookup_id :
    (k : ℕ) (n : Network) {e : EncryptedShareSeenFrom}
    → lookup_id k n.received_shares ≡ some e
    → e.delivered ≡ delivered_at k n.received_shares
unfolding delivered_at
delivered_at-lookup_id k n h = rw (delivered_at, h) refl

pub delivered_at-none :
    (k : ℕ) (n : Network)
    → lookup_id k n.received_shares ≡ none
    → false ≡ delivered_at k n.received_shares
unfolding delivered_at
delivered_at-none k n h = rw (delivered_at, h) refl

module _ (p : Platform) (o : Oracle) (a : ActiveSecretSharing) where
  Keeps-revoke_vote :
      (n : Network) {n' : Network} (share : Share) (proof : List ℤ)
      → observe (revoke_vote share proof) n ≡ done n'
      → Keeps n n'
  unfolding observe
  Keeps-revoke_vote n share proof h =
      Keeps-done
        (record {
          flags = λ k. refl;
          votes = arrivals-append_revoked n.observed share proof;
          marks = refl;
          ids = λ u. u;
        })
        (if-done n.observer h)

  judge_challenge-Keeps :
      (n : Network) {n' : Network} (e : EncryptedShareSeenFrom) (s : SignedEncryptedShare)
      (c : ChallengeVoteStruct) (real : Share)
      → e.delivered ≡ delivered_at c.id n.received_shares
      → judge_challenge p o a n e s c real ≡ done n'
      → Keeps n n'
  unfolding judge_challenge
  judge_challenge-Keeps n {n' = n'} e s c real l h =
      let (tmp, _, h1) = step-done (must (transform_encrypted_share_list s.encrypted_shares)) h in
      let (verified, _, h2) =
        step-done (must (verify_share o a real tmp.proof (some tmp.knowledge))) h1 in
      judged verified tmp.proof h2
    where
      told :
          (b : Bool) (proof : List ℤ) {m : Network}
          → (if b then observe (revoke_vote real proof) n else done n) ≡ done m
          → Keeps n m
      told true proof k = Keeps-revoke_vote n real proof k
      told false proof k = Keeps-done (Keeps-refl n) k

      judged :
          (verified : Bool) (proof : List ℤ)
          → (if verified
              then (if e.delivered then observe (revoke_vote real proof) n else done n) >=> (λ m.
                  done (
                    flood
                      (λ v. challenge v c)
                      m.ip_list
                      (store c.id (record e { invalidated = true }) m)))
              else done (store c.id e n))
            ≡ done n'
          → Keeps n n'
      judged true proof k =
          let (m, first, k1) =
            step-done (if e.delivered then observe (revoke_vote real proof) n else done n) k in
          let kept = told e.delivered proof first in
          let stored =
            Keeps-store c.id (record e { invalidated = true }) m (l ∙ sym (kept.flags c.id)) in
          Keeps-done
            (record {
              flags = λ i. stored.flags i ∙ kept.flags i;
              votes = stored.votes ∙ kept.votes;
              marks = stored.marks ∙ kept.marks;
              ids = λ u. stored.ids (kept.ids u);
            })
            k1
      judged false proof k = Keeps-done (Keeps-store c.id e n l) k

  open_challenge-Keeps :
      (n : Network) {n' : Network} (e : EncryptedShareSeenFrom) (s : SignedEncryptedShare)
      (c : ChallengeVoteStruct)
      → e.delivered ≡ delivered_at c.id n.received_shares
      → open_challenge p o a n e s c ≡ done n'
      → Keeps n n'
  unfolding open_challenge
  open_challenge-Keeps n e s c l h =
      elim (Option-cases (find_point c.sender s.encrypted_shares.enc_shares)) [
        | inl missing ↦ Keeps-done (Keeps-store c.id e n l) (rw (open_challenge, missing) at h)
        | inr (share, is_there) ↦
            let (r, _, h1) =
              step-done (challenged_share p o a c share) (rw (open_challenge, is_there) at h) in
            elim (Option-cases r) [
              | inl shut ↦ Keeps-done (Keeps-store c.id e n l) (rw shut at h1)
              | inr (real, opened) ↦ judge_challenge-Keeps n e s c real l (rw opened at h1)
            ]
      ]

  answer_challenge-Keeps :
      (n : Network) {n' : Network} (e : EncryptedShareSeenFrom) (c : ChallengeVoteStruct)
      → e.delivered ≡ delivered_at c.id n.received_shares
      → answer_challenge p o a n e c ≡ done n'
      → Keeps n n'
  unfolding answer_challenge
  answer_challenge-Keeps n e c l h = elim (Option-cases (received c.hash e)) [
    | inl unknown ↦
        let (e', freed, h1) =
          step-done (unlock (record e { challenges = e.challenges ++ c ∷ [] }))
            (rw (answer_challenge, unknown) at h) in
        Keeps-done
          (Keeps-store c.id e' n
            (unlock-delivered (record e { challenges = e.challenges ++ c ∷ [] }) freed ∙ l))
          h1
    | inr (s, known) ↦ elim (Bool-cases (enough n s)) [
      | inl many ↦ open_challenge-Keeps n e s c l (rw (answer_challenge, known, many) at h)
      | inr few ↦
          Keeps-done (Keeps-store c.id (record e { challenges = e.challenges ++ c ∷ [] }) n l)
            (rw (answer_challenge, known, few) at h)
    ]
  ]

  pub challenge_vote-Keeps :
      (n : Network) {n' : Network} (c : ChallengeVoteStruct)
      → challenge_vote p o a n c ≡ done n'
      → Keeps n n'
  unfolding challenge_vote
  challenge_vote-Keeps n {n' = n'} c h = elim (Option-cases (lookup_id c.id n.received_shares)) [
    | inl new ↦
        Keeps-done (Keeps-store c.id _ n (delivered_at-none c.id n new))
          (rw (challenge_vote, new) at h)
    | inr (e, old) ↦ elim (Bool-cases e.invalidated) [
      | inl invalid ↦ Keeps-done (Keeps-refl n) (rw (challenge_vote, old, invalid) at h)
      | inr valid ↦
          let same : EncryptedShareSeenFrom = record e { invalidated = false } in
          let h1 : (lock same >=> (λ e'. answer_challenge p o a n e' c)) ≡ done n' =
            rw (challenge_vote, old, valid) at h in
          let (e', held, h2) = step-done (lock same) h1 in
          answer_challenge-Keeps n e' c
            (lock-delivered same held ∙ delivered_at-lookup_id c.id n old) h2
    ]
  ]

  pub challenge_votes-Keeps :
      (n : Network) {n' : Network} (l : List ChallengeVoteStruct)
      → challenge_votes p o a n l ≡ done n'
      → Keeps n n'
  unfolding challenge_votes
  challenge_votes-Keeps n [] h = Keeps-done (Keeps-refl n) h
  challenge_votes-Keeps n (c ∷ l) h =
      let (m, one, rest) = step-done (challenge_vote p o a n c) h in
      Keeps-trans (challenge_vote-Keeps n c one) (challenge_votes-Keeps m l rest)
