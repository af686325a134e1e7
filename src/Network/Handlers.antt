-- ===== src/Network/Handlers.antt =====
-- server/src/NetworkHTTPSImpl.go: the handlers for the shares of clients and of other servers. The
-- secret sharing of the server is an oracle `o` and a configuration `a`; `p` is the platform.
pub mod Signatures
pub mod NewSignatures
pub mod Delivery
pub mod Waiting
pub mod Participants
pub mod Panics
pub mod Collecting
pub mod Adding
pub mod Signing
pub mod Resubmission
pub mod Quorum
pub mod Interleaving
pub mod Schedules
pub mod Voting
use digital_election_system.Common.{
  ℕ, zero, suc, ◌+◌, Bool, true, false, not, Option, none, some, List, [], ◌∷◌, ◌++◌, map, ℤ, pos,
  if◌then◌else◌, ltb, leb, length, get_elem?, ◌&&◌, ◌||◌, negsuc,
}
use digital_election_system.Framework.{Share, ZeroKnowledge, transform_to_share}
use digital_election_system.Knowledge.{Oracle, equal}
use digital_election_system.Commitment.{ActiveSecretSharing}
use digital_election_system.Sharing.{verify_share}
use digital_election_system.Network.{
  Outcome, done, panicked, deadlocked, ◌>=>◌, must, EncryptedShare,
  EncryptedShareListMarshalFriendly, EncryptedShareList, transform_encrypted_share_list, Signature,
  SignedEncryptedShare, ChallengeVoteStruct, EncryptedShareSeenFrom, IpStruct, Message,
  new_participant, server_share, challenge, bad_request, Event, new_share_arrived, revoke_vote,
  Network, Platform, same_text, lookup_id, store_id, store, received, seen, receive, mark_seen,
  lock, unlock, observe,
}
use digital_election_system.Network.Participants.{flood}
use digital_election_system.Network.Opening.{create_share_hash, decrypt_verify_share}
use digital_election_system.Network.Challenges.{enough}
use digital_election_system.Network.Checking.{complaint, check_signatures, unlock_id}

unfoldable pub has_sender : ℤ → List Signature → Bool
has_sender k [] = false
has_sender k (j ∷ local) = equal k j.sender || has_sender k local

-- findNewSignatures; the map of the senders seen is that of the entry.
unfoldable pub find_new_signatures :
    List Signature → List Signature → EncryptedShareSeenFrom → List Signature
find_new_signatures [] local e = []
find_new_signatures (v ∷ rest) local e =
    let signs = find_new_signatures rest local e in
    if seen v.sender e then signs else (if has_sender v.sender local then signs else v ∷ signs)

-- An index of a slice that is out of range is a panic.
unfoldable pub server_at : ℤ → Network → Outcome IpStruct
server_at (pos k) n = must (get_elem? n.ip_list k)
server_at (negsuc k) n = panicked

unfoldable pub any_unsent : List Signature → Bool
any_unsent [] = false
any_unsent (v ∷ rest) = not v.sent || any_unsent rest

module _ (p : Platform) (o : Oracle) (a : ActiveSecretSharing) where
  abbrev pub own_signature : Network → SignedEncryptedShare → Signature
  own_signature n s = record {
    sender = n.server_id;
    sign = p.sign (create_share_hash p s);
    sent = true;
  }

  -- receiveClientShare from the check of the share on. `found` is whether the id was known, `s` the share
  -- with its signatures; `e` is locked and in `n`.
  unfoldable pub accept_client_share :
      Network → ℕ → Bool → EncryptedShareSeenFrom → SignedEncryptedShare → Outcome Network
  accept_client_share n id found e s = decrypt_verify_share p o a n s >=> (λ r. elim r.0 [
    | none ↦ (if found then done e else mark_seen n.server_id false e) >=> (λ e'.
        unlock (if enough n s then record e' { invalidated = true } else e') >=> (λ e''.
          let m = store id e'' n in
          let m' =
            (if enough n s
              then flood (λ v. challenge v (complaint p o a n id r.1 s)) (p.shuffle n.ip_list) m
              else m) in
          done (record m' { outbox = m'.outbox ++ bad_request ∷ [] })))
    | some _ ↦ mark_seen n.server_id true e >=> (λ e'.
        receive (create_share_hash p s) s e' >=> (λ e''.
          check_signatures p o a (store id e'' n) id e'' >=> (λ m.
            unlock_id p o a id m >=> (λ m'. done (flood (λ v. server_share v s) m'.ip_list m')))))
  ])

  -- The entry of a share that is known by its hash gets the own signature, in place.
  unfoldable pub sign_client_share :
      Network
      → EncryptedShareSeenFrom
      → EncryptedShareListMarshalFriendly
      → Outcome (EncryptedShareSeenFrom × SignedEncryptedShare)
  sign_client_share n e l =
      let fresh : SignedEncryptedShare = record { signatures = []; encrypted_shares = l } in
      let own = own_signature n fresh in
      let s : SignedEncryptedShare = elim (received (create_share_hash p fresh) e) [
        | none ↦ record { signatures = own ∷ []; encrypted_shares = l }
        | some share ↦ record share { signatures = share.signatures ++ own ∷ [] }
      ] in
      receive (create_share_hash p fresh) s e >=> (λ e'. done (e', s))

  unfoldable pub receive_client_share :
      Network → EncryptedShareListMarshalFriendly → Outcome Network
  receive_client_share n l = elim (lookup_id l.id n.received_shares) [
    | some e ↦ lock e >=> (λ e'.
        if e'.invalidated || e'.delivered
        then unlock e' >=> (λ e''. done (store l.id e'' n))
        else sign_client_share n e' l
          >=> (λ r. accept_client_share (store l.id r.0 n) l.id true r.0 r.1))
    | none ↦
        let fresh : SignedEncryptedShare = record { signatures = []; encrypted_shares = l } in
        let s : SignedEncryptedShare = record {
          signatures = own_signature n fresh ∷ [];
          encrypted_shares = l;
        } in
        let e : EncryptedShareSeenFrom = record {
          shares_received = some ((create_share_hash p fresh, s) ∷ []);
          signatures_seen_from = some ((n.server_id, true) ∷ []);
          delivered = false;
          invalidated = false;
          challenges = [];
          locked = true;
        } in
        accept_client_share (store l.id e n) l.id false e s
  ]

  -- The loop of ReceiveServerShare over the new signatures: the share, the entry, and whether a signature
  -- was verified.
  unfoldable pub verify_signatures :
      Network
      → List ℕ
      → List Signature
      → SignedEncryptedShare
      → EncryptedShareSeenFrom
      → Bool
      → Outcome (SignedEncryptedShare × EncryptedShareSeenFrom × Bool)
  verify_signatures n hash [] s e new = done (s, e, new)
  verify_signatures n hash (v ∷ rest) s e new =
      if seen v.sender e
      then verify_signatures n hash rest s e new
      else server_at v.sender n >=> (λ ip.
        if p.verify ip.public_key hash v.sign
        then mark_seen v.sender true e >=> (λ e'.
          verify_signatures n hash rest (record s { signatures = s.signatures ++ v ∷ [] }) e' true)
        else verify_signatures n hash rest s e new)

  -- ReceiveServerShare from the lookup of the hash on; `e` is locked.
  unfoldable pub accept_server_share :
      Network → SignedEncryptedShare → EncryptedShareSeenFrom → Outcome Network
  accept_server_share n m e =
      let id = m.encrypted_shares.id in
      let hash = create_share_hash p m in
      let known : SignedEncryptedShare = elim (received hash e) [
        | none ↦ record { signatures = []; encrypted_shares = m.encrypted_shares }
        | some s ↦ s
      ] in
      verify_signatures n hash (find_new_signatures m.signatures known.signatures e) known e false
      >=> (λ r. receive hash r.0 r.1 >=> (λ e'.
          check_signatures p o a (store id e' n) id e' >=> (λ n'. unlock_id p o a id n' >=> (λ n''.
            done (if r.2 then record n'' { delayed = n''.delayed ++ (id, r.0) ∷ [] } else n'')))))

  unfoldable pub receive_server_share : Network → SignedEncryptedShare → Outcome Network
  receive_server_share n m =
      let id = m.encrypted_shares.id in
      elim (lookup_id id n.received_shares) [
        | some e ↦ lock e >=> (λ e'.
            if e'.invalidated || e'.delivered
            then unlock e' >=> (λ e''. done (store id e'' n))
            else accept_server_share n m e')
        | none ↦ accept_server_share n m (record {
          shares_received = some [];
          signatures_seen_from = some [];
          delivered = false;
          invalidated = false;
          challenges = [];
          locked = true;
        })
      ]

  -- sendDelayedMessage: the loop that sets `sent` sets it on a copy, so the signatures stay as they are.
  -- The message is that of the time of the call; in the source it is behind a pointer to what the
  -- entry holds, which may have more signatures when the second of the delay is over.
  unfoldable pub send_delayed_message : Network → ℕ → SignedEncryptedShare → Outcome Network
  send_delayed_message n id s = must (lookup_id id n.received_shares) >=> (λ e. lock e >=> (λ e'.
      unlock e' >=> (λ e''.
        let m = store id e'' n in
        done (
          if any_unsent s.signatures
          then flood (λ v. server_share v s) (p.shuffle n.ip_list) m
          else m))))
