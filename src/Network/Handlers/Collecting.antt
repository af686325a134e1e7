-- ===== src/Network/Handlers/Collecting.antt =====
-- server/src/NetworkHTTPSImpl.go: the entry of one vote while its signatures are collected, and what
-- _CheckSignatures does with it.
use digital_election_system.Common.{
  ℕ, ◌+◌, ◌≡◌, refl, Bool, true, false, some, List, [], ◌∷◌, ◌++◌, length, leb, ℤ,
}
use digital_election_system.Framework.{Share}
use digital_election_system.Knowledge.{Oracle}
use digital_election_system.Commitment.{ActiveSecretSharing}
use digital_election_system.Network.{
  done, EncryptedShareListMarshalFriendly, EncryptedShareList, transform_encrypted_share_list,
  Signature, SignedEncryptedShare, EncryptedShareSeenFrom, new_share_arrived, Network, Platform,
  lookup_id, store, received, observe, lookup_hash, store_hash,
}
use digital_election_system.Network.Store.{lookup_id-store_id}
use digital_election_system.Network.Opening.{decrypt_verify_share}
use digital_election_system.Network.Challenges.{enough, challenge_votes}
use digital_election_system.Network.Checking.{check_signatures, check_shares, decide_share, deliver}
use digital_election_system.Network.Connections.Reuse.{same_text_self}

-- One vote at one server: the server before it, the list that the client posts, and what the server's
-- share of it opens to.
pub record Posting : Type 0 where
  pub platform : Platform
  pub oracle : Oracle
  pub sharing : ActiveSecretSharing
  pub server : Network
  pub vote : EncryptedShareListMarshalFriendly
  pub share : Share
  pub key : List ℕ
  pub list : EncryptedShareList

module _ (c : Posting) where
  abbrev p : Platform
  p = c.platform

  abbrev o : Oracle
  o = c.oracle

  abbrev a : ActiveSecretSharing
  a = c.sharing

  abbrev n : Network
  n = c.server

  abbrev l : EncryptedShareListMarshalFriendly
  l = c.vote

  abbrev share : Share
  share = c.share

  abbrev key : List ℕ
  key = c.key

  abbrev list : EncryptedShareList
  list = c.list

  abbrev pub fresh : List Signature → SignedEncryptedShare
  fresh signs = record { signatures = signs; encrypted_shares = l }

  abbrev pub hash : List ℕ
  hash = p.share_hash l

  abbrev pub entry : List Signature → List (ℤ × Bool) → Bool → Bool → EncryptedShareSeenFrom
  entry signs seen_from delivered locked = record {
    shares_received = some ((hash, fresh signs) ∷ []);
    signatures_seen_from = some seen_from;
    delivered = delivered;
    invalidated = false;
    challenges = [];
    locked = locked;
  }

  -- What the platform does with the share, and that the server has an observer.
  pub record Opens : Type 0 where
    pub opened : decrypt_verify_share p o a n (fresh []) ≡ done (some share, key)
    pub read : transform_encrypted_share_list l ≡ some list
    pub observer : n.observer ≡ true
    pub one : (x : List ℕ × SignedEncryptedShare) → p.range_order (x ∷ []) ≡ x ∷ []

  -- The parts of the state that submissions leave alone.
  pub record Same (m : Network) : Type 0 where
    pub ip_list : m.ip_list ≡ n.ip_list
    pub t : m.t ≡ n.t
    pub server_id : m.server_id ≡ n.server_id
    pub observer : m.observer ≡ n.observer

  pub opens-Same :
      (m : Network) (signs : List Signature)
      → Opens
      → Same m
      → decrypt_verify_share p o a m (fresh signs) ≡ done (some share, key)
  unfolding decrypt_verify_share
  opens-Same m signs h same = rw (decrypt_verify_share, same.server_id) h.opened

  pub enough-Same :
      (m : Network) (signs : List Signature)
      → Same m
      → enough m (fresh signs) ≡ leb (length n.ip_list) (length signs + n.t)
  unfolding enough
  enough-Same m signs same = rw (same.ip_list, same.t) refl

  pub store_hash_self :
      (s s' : SignedEncryptedShare) → store_hash hash s ((hash, s') ∷ []) ≡ (hash, s) ∷ []
  unfolding store_hash
  store_hash_self s s' = rw (same_text_self hash) refl

  -- The state while the entry is locked.
  abbrev pub held : Network → List Signature → List (ℤ × Bool) → Network
  held m signs seen_from = store l.id (entry signs seen_from false true) m

  pub check_below :
      (m : Network) (signs : List Signature) (seen_from : List (ℤ × Bool))
      → Opens
      → enough (held m signs seen_from) (fresh signs) ≡ false
      → check_signatures p o a (held m signs seen_from) l.id (entry signs seen_from false true)
        ≡ done (held m signs seen_from)
  unfolding check_signatures check_shares
  check_below m signs seen_from h below =
      rw (h.one (hash, fresh signs)) (rw (check_shares, below) refl)

  unfoldable pub told : Network → List Signature → List (ℤ × Bool) → Bool → Network
  told m signs seen_from locked =
      record (store l.id (entry signs seen_from true locked) (held m signs seen_from)) {
        observed = m.observed ++ new_share_arrived share list.proof ∷ [];
      }

  pub check_enough :
      (m : Network) (signs : List Signature) (seen_from : List (ℤ × Bool))
      → Opens
      → Same m
      → enough (held m signs seen_from) (fresh signs) ≡ true
      → check_signatures p o a (held m signs seen_from) l.id (entry signs seen_from false true)
        ≡ done (told m signs seen_from true)
  unfolding check_signatures check_shares decide_share challenge_votes deliver observe told
  check_enough m signs seen_from h same above =
      let opened : decrypt_verify_share p o a (held m signs seen_from) (fresh signs)
          ≡ done (some share, key) =
        opens-Same (held m signs seen_from) signs h (record {
          ip_list = same.ip_list;
          t = same.t;
          server_id = same.server_id;
          observer = same.observer;
        }) in
      rw (h.one (hash, fresh signs)) (
        rw
          (
            check_shares,
            above,
            decide_share,
            opened,
            lookup_id-store_id l.id (entry signs seen_from false true) m.received_shares,
            h.read,
            same.observer,
            h.observer,
          )
          refl)

  pub received_self :
      (signs : List Signature) (seen_from : List (ℤ × Bool))
      → received hash (entry signs seen_from false true) ≡ some (fresh signs)
  unfolding received lookup_hash
  received_self signs seen_from = rw (same_text_self hash) refl

  pub stored-Same : (m : Network) (e : EncryptedShareSeenFrom) → Same m → Same (store l.id e m)
  stored-Same m e same = record {
    ip_list = same.ip_list;
    t = same.t;
    server_id = same.server_id;
    observer = same.observer;
  }

  -- The vote was passed on.
  pub record Told (m : Network) : Type 0 where
    pub observed : m.observed ≡ n.observed ++ new_share_arrived share list.proof ∷ []
    pub signs : List Signature
    pub seen_from : List (ℤ × Bool)
    pub entry : lookup_id l.id m.received_shares ≡ some (entry signs seen_from true false)
