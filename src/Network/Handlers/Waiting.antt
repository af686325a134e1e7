-- ===== src/Network/Handlers/Waiting.antt =====
-- server/src/NetworkHTTPSImpl.go: the lock that a challenge leaves behind, and who waits for it.
use digital_election_system.Common.{
  ℕ, ◌≡◌, refl, subst, Bool, true, false, Bool-cases, inl, inr, Option-cases, some, List, [], ◌∷◌,
  ◌++◌, ℤ, if◌then◌else◌,
}
use digital_election_system.Commitment.{ActiveSecretSharing}
use digital_election_system.Framework.{Share}
use digital_election_system.Knowledge.{Oracle}
use digital_election_system.Sharing.{verify_share}
use digital_election_system.Network.{
  done, deadlocked, ◌>=>◌, must, SignedEncryptedShare, ChallengeVoteStruct, EncryptedShareSeenFrom,
  challenge, revoke_vote, Network, Platform, lookup_id, store, received, lock, observe,
  transform_encrypted_share_list,
}
use digital_election_system.Network.Challenges.{
  enough, judge_challenge, open_challenge, answer_challenge, challenge_vote, challenge_votes,
  challenged_share,
}
use digital_election_system.Network.Opening.{decrypt_verify_share, find_point}
use digital_election_system.Network.Checking.{decide_share}
use digital_election_system.Network.Handlers.{receive_server_share}
use digital_election_system.Network.Participants.{flood}
use digital_election_system.Network.Store.{step-done, done_inj, lookup_id-store_id}

-- The entry of an id is locked.
abbrev Locked : ℕ → Network → Type 0
Locked id n =
    (e : EncryptedShareSeenFrom) × (lookup_id id n.received_shares ≡ some e) × (e.locked ≡ true)

stored-Locked :
    (id : ℕ) (e : EncryptedShareSeenFrom) (n : Network) {n' : Network}
    → e.locked ≡ true
    → done (store id e n) ≡ done n'
    → Locked id n'
stored-Locked id e n l h =
    subst (Locked id) (done_inj h) (e, lookup_id-store_id id e n.received_shares, l)

module _ (p : Platform) (o : Oracle) (a : ActiveSecretSharing) where
  judge_challenge-Locked :
      (n : Network) {n' : Network} (e : EncryptedShareSeenFrom) (s : SignedEncryptedShare)
      (c : ChallengeVoteStruct) (real : Share)
      → e.locked ≡ true
      → judge_challenge p o a n e s c real ≡ done n'
      → Locked c.id n'
  unfolding judge_challenge
  judge_challenge-Locked n {n' = n'} e s c real l h =
      let (tmp, _, h1) = step-done (must (transform_encrypted_share_list s.encrypted_shares)) h in
      let (verified, _, h2) =
        step-done (must (verify_share o a real tmp.proof (some tmp.knowledge))) h1 in
      judged verified tmp.proof h2
    where
      judged :
          (verified : Bool) (proof : List ℤ)
          → (if verified
              then (if e.delivered then observe (revoke_vote real proof) n else done n) >=> (λ m.
                  done (
                    flood
                      (λ v. challenge v c)
                      m.ip_list
                      (store c.id (record e { invalidated = true }) m)))
              else done (store c.id e n))
            ≡ done n'
          → Locked c.id n'
      judged true proof k =
          let (m, _, k1) =
            step-done (if e.delivered then observe (revoke_vote real proof) n else done n) k in
          subst (Locked c.id) (done_inj k1)
            (_, lookup_id-store_id c.id (record e { invalidated = true }) m.received_shares, l)
      judged false proof k = stored-Locked c.id e n l k

  open_challenge-Locked :
      (n : Network) {n' : Network} (e : EncryptedShareSeenFrom) (s : SignedEncryptedShare)
      (c : ChallengeVoteStruct)
      → e.locked ≡ true
      → open_challenge p o a n e s c ≡ done n'
      → Locked c.id n'
  unfolding open_challenge
  open_challenge-Locked n e s c l h =
      elim (Option-cases (find_point c.sender s.encrypted_shares.enc_shares)) [
        | inl missing ↦ stored-Locked c.id e n l (rw (open_challenge, missing) at h)
        | inr (share, is_there) ↦
            let (r, _, h1) =
              step-done (challenged_share p o a c share) (rw (open_challenge, is_there) at h) in
            elim (Option-cases r) [
              | inl shut ↦ stored-Locked c.id e n l (rw shut at h1)
              | inr (real, opened) ↦ judge_challenge-Locked n e s c real l (rw opened at h1)
            ]
      ]

  answer_challenge-Locked :
      (n : Network) {n' : Network} (e : EncryptedShareSeenFrom) (c : ChallengeVoteStruct)
      {s : SignedEncryptedShare}
      → e.locked ≡ true
      → received c.hash e ≡ some s
      → answer_challenge p o a n e c ≡ done n'
      → Locked c.id n'
  unfolding answer_challenge
  answer_challenge-Locked n e c {s = s} l hashed h = elim (Bool-cases (enough n s)) [
    | inl many ↦ open_challenge-Locked n e s c l (rw (answer_challenge, hashed, many) at h)
    | inr few ↦
        stored-Locked c.id (record e { challenges = e.challenges ++ c ∷ [] }) n l
          (rw (answer_challenge, hashed, few) at h)
  ]

  challenge_vote-Locked :
      (n : Network) {n' : Network} (c : ChallengeVoteStruct) {e : EncryptedShareSeenFrom}
      {s : SignedEncryptedShare}
      → lookup_id c.id n.received_shares ≡ some e
      → e.invalidated ≡ false
      → e.locked ≡ false
      → received c.hash e ≡ some s
      → challenge_vote p o a n c ≡ done n'
      → Locked c.id n'
  unfolding challenge_vote lock received
  challenge_vote-Locked n {n' = n'} c {e = e} {s = s} known valid free hashed h =
      let h1 : answer_challenge p o a n (record e { invalidated = false; locked = true }) c
          ≡ done n' =
        rw (challenge_vote, known, valid, lock, free) at h in
      answer_challenge-Locked n (record e { invalidated = false; locked = true }) c refl hashed h1

  -- ChallengeVote for a hash that the server has, on an entry that is not invalidated, does not release
  -- the entry's lock on any path that ends: the next ReceiveServerShare for that id waits for ever.
  pub receive_server_share-challenge_vote :
      (n n' : Network) (c : ChallengeVoteStruct) (e : EncryptedShareSeenFrom)
      (s m : SignedEncryptedShare)
      → lookup_id c.id n.received_shares ≡ some e
      → e.invalidated ≡ false
      → e.locked ≡ false
      → received c.hash e ≡ some s
      → challenge_vote p o a n c ≡ done n'
      → c.id ≡ m.encrypted_shares.id
      → receive_server_share p o a n' m ≡ deadlocked
  unfolding receive_server_share lock
  receive_server_share-challenge_vote n n' c e s m known valid free hashed h same =
      let (e', held, locked) = challenge_vote-Locked n c known valid free hashed h in
      rw
        (
          receive_server_share,
          subst (λ k. lookup_id k n'.received_shares ≡ some e') same held,
          lock,
          locked,
        )
        refl

  -- When a share that is chosen for delivery verifies, but a challenge for its id has come before it,
  -- the end of _CheckSignatures calls ChallengeVote with the entry's lock held and waits for ever.
  pub decide_share-challenge_vote :
      (n : Network) (e : EncryptedShareSeenFrom) (s : SignedEncryptedShare)
      (c : ChallengeVoteStruct) (rest : List ChallengeVoteStruct) (share : Share) (key : List ℕ)
      → lookup_id c.id n.received_shares ≡ some e
      → e.locked ≡ true
      → e.invalidated ≡ false
      → e.challenges ≡ c ∷ rest
      → decrypt_verify_share p o a n s ≡ done (some share, key)
      → decide_share p o a n c.id e s ≡ deadlocked
  unfolding decide_share challenge_vote challenge_votes lock
  decide_share-challenge_vote n e s c rest share key known held valid pending verified =
      rw (verified, valid, pending, challenge_votes, challenge_vote, known, valid, lock, held) refl
