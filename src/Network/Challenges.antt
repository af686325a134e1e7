-- ===== src/Network/Challenges.antt =====
-- server/src/NetworkHTTPSImpl.go: ChallengeVote, by which a server shows the others a share that it received.
use digital_election_system.Common.{
  ◌+◌, Bool, true, false, Option, none, some, List, [], ◌∷◌, ◌++◌, if◌then◌else◌, ltb, leb, length,
}
use digital_election_system.Framework.{Share}
use digital_election_system.Knowledge.{Oracle}
use digital_election_system.Commitment.{ActiveSecretSharing}
use digital_election_system.Sharing.{verify_share}
use digital_election_system.Network.{
  Outcome, done, panicked, ◌>=>◌, must, EncryptedShare, transform_encrypted_share_list,
  SignedEncryptedShare, ChallengeVoteStruct, EncryptedShareSeenFrom, challenge, revoke_vote,
  Network, Platform, lookup_id, store, received, lock, unlock, observe,
}
use digital_election_system.Network.Participants.{flood}
use digital_election_system.Network.Opening.{find_point, take_first, drop_first}

-- The test len(Signatures) >= len(ipList) - t, without the subtraction.
unfoldable pub enough : Network → SignedEncryptedShare → Bool
enough n s = leb (length n.ip_list) (length s.signatures + n.t)

module _ (p : Platform) (o : Oracle) (a : ActiveSecretSharing) where
  -- The share that a challenge opens, if it can be opened.
  unfoldable pub challenged_share : ChallengeVoteStruct → EncryptedShare → Outcome (Option Share)
  challenged_share c e =
      if p.key_size (length c.secret_key)
      then (if ltb (length e.cipher_text) p.nonce_size
          then done none
          else elim (p.open_box c.secret_key (take_first p.nonce_size e.cipher_text)
              (drop_first p.nonce_size e.cipher_text)) [
                | none ↦ done none
                | some msg ↦ done (p.read_share msg)
              ])
      else panicked

  -- A share that verifies invalidates the vote, and revokes it if it was delivered.
  unfoldable pub judge_challenge :
      Network
      → EncryptedShareSeenFrom
      → SignedEncryptedShare
      → ChallengeVoteStruct
      → Share
      → Outcome Network
  judge_challenge n e shares c real =
      must (transform_encrypted_share_list shares.encrypted_shares) >=> (λ tmp.
        must (verify_share o a real tmp.proof (some tmp.knowledge)) >=> (λ verified.
          if verified
          then (if e.delivered then observe (revoke_vote real tmp.proof) n else done n) >=> (λ m.
              done (
                flood (λ v. challenge v c) m.ip_list
                  (store c.id (record e { invalidated = true }) m)))
          else done (store c.id e n)))

  -- The branch of ChallengeVote for a hash that has enough signatures; `e` is locked, and stays so.
  unfoldable pub open_challenge :
      Network
      → EncryptedShareSeenFrom
      → SignedEncryptedShare
      → ChallengeVoteStruct
      → Outcome Network
  open_challenge n e shares c = elim (find_point c.sender shares.encrypted_shares.enc_shares) [
    | none ↦ done (store c.id e n)
    | some share ↦ challenged_share c share >=> (λ r. elim r [
      | none ↦ done (store c.id e n)
      | some real ↦ judge_challenge n e shares c real
    ])
  ]

  -- The rest of ChallengeVote, with the entry locked: only an unknown hash unlocks it.
  unfoldable pub answer_challenge :
      Network → EncryptedShareSeenFrom → ChallengeVoteStruct → Outcome Network
  answer_challenge n e c = elim (received c.hash e) [
    | none ↦
        unlock (record e { challenges = e.challenges ++ c ∷ [] }) >=> (λ e'. done (store c.id e' n))
    | some shares ↦
        if enough n shares
        then open_challenge n e shares c
        else done (store c.id (record e { challenges = e.challenges ++ c ∷ [] }) n)
  ]

  unfoldable pub challenge_vote : Network → ChallengeVoteStruct → Outcome Network
  challenge_vote n c = elim (lookup_id c.id n.received_shares) [
    | none ↦ done (
        store c.id
          (record {
            shares_received = none;
            signatures_seen_from = none;
            delivered = false;
            invalidated = false;
            challenges = c ∷ [];
            locked = false;
          })
          n)
    | some e ↦ if e.invalidated then done n else lock e >=> (λ e'. answer_challenge n e' c)
  ]

  unfoldable pub challenge_votes : Network → List ChallengeVoteStruct → Outcome Network
  challenge_votes n [] = done n
  challenge_votes n (c ∷ rest) = challenge_vote n c >=> (λ m. challenge_votes m rest)
