-- ===== src/Network/Handlers/Signing.antt =====
-- server/src/NetworkHTTPSImpl.go: ReceiveServerShare on a message with one signature, for an entry whose
-- signatures are being collected.
use digital_election_system.Common.{
  ◌≡◌, refl, ◌∙◌, Bool, true, false, some, List, [], ◌∷◌, ◌++◌, ℤ, pos, negsuc,
}
use digital_election_system.Network.{
  Outcome, done, ◌>=>◌, must, EncryptedShareListMarshalFriendly, Signature, SignedEncryptedShare,
  EncryptedShareSeenFrom, IpStruct, new_share_arrived, server_share, Network, Platform, lookup_id,
  store, lock, unlock, receive, received, mark_seen, seen, lookup_sender,
}
use digital_election_system.Network.Opening.{create_share_hash}
use digital_election_system.Network.Checking.{check_signatures, unlock_id}
use digital_election_system.Network.Handlers.{
  find_new_signatures, has_sender, server_at, verify_signatures, accept_server_share,
  receive_server_share,
}
use digital_election_system.Network.Handlers.Collecting.{
  Posting, fresh, hash, entry, Opens, Same, store_hash_self, held, received_self,
}
use digital_election_system.Network.Handlers.Adding.{
  Entered, none_yet, waits, Adds, ends, lookup_sender-mark,
}

module _ (c : Posting) where
  abbrev p : Platform
  p = c.platform

  abbrev n : Network
  n = c.server

  abbrev l : EncryptedShareListMarshalFriendly
  l = c.vote

  abbrev pub message : Signature → SignedEncryptedShare
  message v = fresh c (v ∷ [])

  -- A signature that the server accepts: of a server in its list, whose key verifies it.
  pub record IsValid (v : Signature) : Type 0 where
    pub ip : IpStruct
    pub listed : server_at v.sender n ≡ done ip
    pub verified : p.verify ip.public_key (hash c) v.sign ≡ true

  server_at-Same : (m : Network) (k : ℤ) → Same c m → server_at k m ≡ server_at k n
  unfolding server_at
  server_at-Same m (pos k) same = rw same.ip_list refl
  server_at-Same m (negsuc k) same = refl

  -- The loops over the one signature of a message.
  find_new_signatures-one :
      (v : Signature) (signs : List Signature) (e : EncryptedShareSeenFrom)
      → seen v.sender e ≡ false
      → has_sender v.sender signs ≡ false
      → find_new_signatures (v ∷ []) signs e ≡ v ∷ []
  unfolding find_new_signatures
  find_new_signatures-one v signs e unseen apart = rw (unseen, apart) refl

  verify_signatures-one :
      (m : Network) (v : Signature) (s : SignedEncryptedShare) (e : EncryptedShareSeenFrom)
      (seen_from : List (ℤ × Bool))
      → Same c m
      → IsValid v
      → e.signatures_seen_from ≡ some seen_from
      → seen v.sender e ≡ false
      → verify_signatures p c.oracle c.sharing m (hash c) (v ∷ []) s e false
        ≡ done (
          record s { signatures = s.signatures ++ v ∷ [] },
          record e { signatures_seen_from = some ((v.sender, true) ∷ seen_from) },
          true,
        )
  unfolding verify_signatures mark_seen
  verify_signatures-one m v s e seen_from same valid marks unseen =
      rw (unseen, server_at-Same m v.sender same ∙ valid.listed, valid.verified, marks) refl

  -- The entry that ReceiveServerShare makes.
  abbrev unopened : EncryptedShareSeenFrom
  unopened = record {
    shares_received = some [];
    signatures_seen_from = some [];
    delivered = false;
    invalidated = false;
    challenges = [];
    locked = true;
  }

  abbrev delay : Signature → List Signature → Network → Network
  delay v signs r = record r { delayed = r.delayed ++ (l.id, fresh c (signs ++ v ∷ [])) ∷ [] }

  receive_server_share-runs :
      (m r : Network) (v : Signature) (signs : List Signature) (seen_from : List (ℤ × Bool))
      (delivered : Bool)
      → Same c m
      → Entered c m signs seen_from
      → IsValid v
      → lookup_sender v.sender seen_from ≡ false
      → has_sender v.sender signs ≡ false
      → check_signatures p c.oracle c.sharing
          (held c m (signs ++ v ∷ []) ((v.sender, true) ∷ seen_from))
          l.id
          (entry c (signs ++ v ∷ []) ((v.sender, true) ∷ seen_from) false true)
        ≡ done r
      → lookup_id l.id r.received_shares
        ≡ some (entry c (signs ++ v ∷ []) ((v.sender, true) ∷ seen_from) delivered true)
      → receive_server_share p c.oracle c.sharing m (message v)
        ≡ done (
            delay v signs (
              store l.id
                (entry c (signs ++ v ∷ []) ((v.sender, true) ∷ seen_from) delivered false)
                r))
  unfolding receive_server_share accept_server_share create_share_hash lock receive unlock_id unlock
      seen received digital_election_system.Network.lookup_hash
      digital_election_system.Network.store_hash
  receive_server_share-runs m r v _ _ delivered same (none_yet new) valid unseen apart checked at =
      rw
        (
          receive_server_share,
          new,
          find_new_signatures-one v [] unopened unseen apart,
          verify_signatures-one m v (fresh c []) unopened [] same valid refl unseen,
          checked,
          at,
        )
        refl
  receive_server_share-runs m r v _ _ delivered same (waits signs seen_from found) valid unseen
        apart checked at =
      rw
        (
          receive_server_share,
          found,
          received_self c signs seen_from,
          find_new_signatures-one v signs (entry c signs seen_from false true) unseen apart,
          verify_signatures-one m v (fresh c signs) (entry c signs seen_from false true) seen_from
              same valid refl unseen,
          store_hash_self c (fresh c (signs ++ v ∷ [])) (fresh c signs),
          checked,
          at,
        )
        refl

  -- A message with a signature of another server adds it.
  pub receive_server_share-Adds :
      (m : Network) (v : Signature) (signs : List Signature) (seen_from : List (ℤ × Bool))
      → Opens c
      → Same c m
      → m.observed ≡ n.observed
      → Entered c m signs seen_from
      → IsValid v
      → lookup_sender v.sender seen_from ≡ false
      → has_sender v.sender signs ≡ false
      → Adds c m v signs seen_from (receive_server_share p c.oracle c.sharing m (message v))
  receive_server_share-Adds m v signs seen_from h same quiet entered valid unseen apart =
      ends c m m v signs seen_from ((v.sender, true) ∷ seen_from) _ (delay v signs) h
        (record { same = same; others = λ j other. refl }) quiet
        (λ j other. lookup_sender-mark c v.sender j seen_from other) (λ r. refl) (λ r. refl)
        (λ r s. record {
          ip_list = s.ip_list;
          t = s.t;
          server_id = s.server_id;
          observer = s.observer;
        })
        (λ r delivered checked at.
          receive_server_share-runs m r v signs seen_from delivered same entered valid unseen apart
            checked at)
