-- ===== src/Network/Checking.antt =====
-- server/src/NetworkHTTPSImpl.go: _CheckSignatures, which delivers a vote that has enough signatures.
use digital_election_system.Common.{ℕ, true, none, some, List, [], ◌∷◌, if◌then◌else◌}
use digital_election_system.Framework.{Share}
use digital_election_system.Knowledge.{Oracle}
use digital_election_system.Commitment.{ActiveSecretSharing}
use digital_election_system.Network.{
  Outcome, done, ◌>=>◌, must, transform_encrypted_share_list, SignedEncryptedShare,
  ChallengeVoteStruct, EncryptedShareSeenFrom, challenge, new_share_arrived, Network, Platform,
  lookup_id, store, unlock, observe,
}
use digital_election_system.Network.Participants.{flood}
use digital_election_system.Network.Opening.{create_share_hash, decrypt_verify_share}
use digital_election_system.Network.Challenges.{enough, challenge_votes}

module _ (p : Platform) (o : Oracle) (a : ActiveSecretSharing) where
  -- What a server sends about a vote whose share it could not verify.
  abbrev pub complaint : Network → ℕ → List ℕ → SignedEncryptedShare → ChallengeVoteStruct
  complaint n id key s = record {
    id = id;
    secret_key = key;
    hash = create_share_hash p s;
    sender = n.server_id;
  }

  -- The end of _CheckSignatures for a share that is verified.
  unfoldable pub deliver : Network → ℕ → Share → SignedEncryptedShare → Outcome Network
  deliver n id share s = must (lookup_id id n.received_shares) >=> (λ e.
      if e.invalidated
      then done n
      else must (transform_encrypted_share_list s.encrypted_shares) >=> (λ l.
        observe (new_share_arrived share l.proof) (store id (record e { delivered = true }) n)))

  -- What _CheckSignatures does with the first share that has enough signatures. The error carries the
  -- empty share, so its id is 0; and the lock is released, which the caller does again.
  unfoldable pub decide_share :
      Network → ℕ → EncryptedShareSeenFrom → SignedEncryptedShare → Outcome Network
  decide_share n id e s = decrypt_verify_share p o a n s >=> (λ r. elim r.0 [
    | none ↦
        unlock (record e { invalidated = true })
        >=> (λ e'. done (store id e' (flood (λ v. challenge v (complaint n 0 r.1 s)) n.ip_list n)))
    | some share ↦
        if e.invalidated
        then done n
        else challenge_votes p o a n e.challenges >=> (λ m. deliver m id share s)
  ])

  unfoldable pub check_shares :
      Network → ℕ → EncryptedShareSeenFrom → List (List ℕ × SignedEncryptedShare) → Outcome Network
  check_shares n id e [] = done n
  check_shares n id e ((_, s) ∷ rest) =
      if enough n s then decide_share n id e s else check_shares n id e rest

  -- _CheckSignatures, for the entry `e` of `id`, which `n` holds.
  unfoldable pub check_signatures : Network → ℕ → EncryptedShareSeenFrom → Outcome Network
  check_signatures n id e =
      if e.delivered
      then done n
      else elim e.shares_received [ none ↦ done n | some m ↦ check_shares n id e (p.range_order m) ]

  -- The unlock of the entry of an id.
  unfoldable pub unlock_id : ℕ → Network → Outcome Network
  unlock_id id n =
      must (lookup_id id n.received_shares) >=> (λ e. unlock e >=> (λ e'. done (store id e' n)))
