-- ===== src/Network/Handlers/Adding.antt =====
-- server/src/NetworkHTTPSImpl.go: receiveClientShare on an entry whose signatures are being collected: it adds
-- one signature, and the one that makes them enough passes the vote on.
use digital_election_system.Common.{
  ℕ, suc, ◌+◌, ◌≤◌, ◌<◌, ◌≡◌, refl, ap, ◌∙◌, Bool, true, false, none, some, List, [], ◌∷◌, ◌++◌,
  arith, length, length-append, ℤ, ◌==◌,
}
use digital_election_system.Knowledge.{equal}
use digital_election_system.Network.{
  EncryptedShareSeenFrom, Outcome, done, EncryptedShareListMarshalFriendly, Signature,
  new_share_arrived, server_share, Network, Platform, lookup_id, store, lock, unlock, receive,
  mark_seen, lookup_sender,
}
use digital_election_system.Network.Store.{lookup_id-store_id, lookup_id-store_id_other}
use digital_election_system.Network.Participants.{flood}
use digital_election_system.Network.Opening.{create_share_hash}
use digital_election_system.Network.Checking.{check_signatures, unlock_id}
use digital_election_system.Network.Handlers.{
  own_signature, accept_client_share, sign_client_share, receive_client_share,
}
use digital_election_system.Network.Handlers.Collecting.{
  Posting, fresh, entry, Opens, Same, opens-Same, enough-Same, store_hash_self, held, check_below,
  check_enough, told, received_self, stored-Same, Told,
}

module _ (c : Posting) where
  abbrev p : Platform
  p = c.platform

  abbrev n : Network
  n = c.server

  abbrev l : EncryptedShareListMarshalFriendly
  l = c.vote

  -- What the server holds of the vote.
  pub data Entered (m : Network) : List Signature → List (ℤ × Bool) → Type 0 where
    none_yet : lookup_id l.id m.received_shares ≡ none → Entered m [] []
    waits :
        (signs : List Signature) (seen_from : List (ℤ × Bool))
        → lookup_id l.id m.received_shares ≡ some (entry c signs seen_from false false)
        → Entered m signs seen_from

  -- The vote waits, with a signature more.
  pub record After (v : Signature) (signs : List Signature) (seen_from : List (ℤ × Bool))
      (m : Network) : Type 0 where
    pub same : Same c m
    pub quiet : m.observed ≡ n.observed
    pub seen_after : List (ℤ × Bool)
    pub entered : Entered m (signs ++ v ∷ []) seen_after
    pub kept :
        (j : ℤ) → equal j v.sender ≡ false → lookup_sender j seen_after ≡ lookup_sender j seen_from

  -- The entries of other votes are those of before.
  pub record Leaves (before m : Network) : Type 0 where
    pub same : Same c m
    pub others :
        (j : ℕ)
        → (j == l.id) ≡ false
        → lookup_id j m.received_shares ≡ lookup_id j before.received_shares

  -- A handler adds a signature, and passes the vote on if that makes them enough.
  abbrev pub Adds :
      Network → Signature → List Signature → List (ℤ × Bool) → Outcome Network → Type 0
  Adds before v signs seen_from x =
      (suc (length signs) + n.t < length n.ip_list
        → (m : Network) × (x ≡ done m) × After v signs seen_from m × Leaves before m)
      × (length n.ip_list ≤ suc (length signs) + n.t
          → (m : Network) × (x ≡ done m) × Told c m × Leaves before m)

  length-snoc :
      (signs : List Signature) (v : Signature) → length (signs ++ v ∷ []) ≡ suc (length signs)
  length-snoc signs v = length-append signs (v ∷ []) ∙ omega arith

  -- What the check of the signatures decides for an entry that is locked, and what the handler does after it.
  pub ends :
      (before m : Network) (v : Signature) (signs : List Signature)
      (seen_from seen_after : List (ℤ × Bool)) (x : Outcome Network) (finish : Network → Network)
      → Opens c
      → Leaves before m
      → m.observed ≡ n.observed
      → ((j : ℤ)
          → equal j v.sender ≡ false
          → lookup_sender j seen_after ≡ lookup_sender j seen_from)
      → ((r : Network) → (finish r).received_shares ≡ r.received_shares)
      → ((r : Network) → (finish r).observed ≡ r.observed)
      → ((r : Network) → Same c r → Same c (finish r))
      → ((r : Network) (delivered : Bool)
          → check_signatures p c.oracle c.sharing
              (held c m (signs ++ v ∷ []) seen_after)
              l.id
              (entry c (signs ++ v ∷ []) seen_after false true)
            ≡ done r
          → lookup_id l.id r.received_shares
            ≡ some (entry c (signs ++ v ∷ []) seen_after delivered true)
          → x ≡ done (finish (store l.id (entry c (signs ++ v ∷ []) seen_after delivered false) r)))
      → Adds before v signs seen_from x
  unfolding told
  ends before m v signs seen_from seen_after x finish h leaves quiet kept shares events net runs =
      let signs' = signs ++ v ∷ [] in
      let same = leaves.same in
      let count = enough-Same c (held c m signs' seen_after) signs' (stored-Same c m _ same) in
      let m1 = held c m signs' seen_after in
      let m2 = told c m signs' seen_after true in
      let found : (delivered : Bool) (r : Network)
          → lookup_id l.id
              (finish (store l.id (entry c signs' seen_after delivered false) r)).received_shares
            ≡ some (entry c signs' seen_after delivered false) =
        λ delivered r.
          ap (lookup_id l.id) (shares (store l.id (entry c signs' seen_after delivered false) r))
          ∙ lookup_id-store_id l.id (entry c signs' seen_after delivered false) r.received_shares in
      let others : (e : EncryptedShareSeenFrom) (r : Network)
          → ((j : ℕ)
              → (j == l.id) ≡ false
              → lookup_id j r.received_shares ≡ lookup_id j before.received_shares)
          → (j : ℕ) → (j == l.id) ≡ false
          → lookup_id j (store l.id e r).received_shares ≡ lookup_id j before.received_shares =
        λ e r h j other. lookup_id-store_id_other j l.id e r.received_shares other ∙ h j other in
      let left : (e : EncryptedShareSeenFrom) (r : Network)
          → ((j : ℕ)
              → (j == l.id) ≡ false
              → lookup_id j r.received_shares ≡ lookup_id j before.received_shares)
          → (j : ℕ) → (j == l.id) ≡ false
          → lookup_id j (finish (store l.id e r)).received_shares
            ≡ lookup_id j before.received_shares =
        λ e r h j other. ap (lookup_id j) (shares (store l.id e r)) ∙ others e r h j other in
      (
        (λ few. (
          finish (store l.id (entry c signs' seen_after false false) m1),
          runs m1 false
              (check_below c m signs' seen_after h (count ∙ ground (arith, length-snoc signs v)))
              (lookup_id-store_id l.id (entry c signs' seen_after false true) m.received_shares),
          record {
            same = net _ (stored-Same c m1 _ (stored-Same c m _ same));
            quiet = events _ ∙ quiet;
            seen_after = seen_after;
            entered = waits signs' seen_after (found false m1);
            kept = kept;
          },
          record {
            same = net _ (stored-Same c m1 _ (stored-Same c m _ same));
            others = left _ m1 (others _ m leaves.others);
          },
        )),
        λ many. (
          finish (store l.id (entry c signs' seen_after true false) m2),
          runs m2 true
              (check_enough c m signs' seen_after h same
                (count ∙ ground (arith, length-snoc signs v)))
              (lookup_id-store_id l.id (entry c signs' seen_after true true) _),
          record {
            observed =
                events _ ∙ ap (λ xs. xs ++ new_share_arrived c.share c.list.proof ∷ []) quiet;
            signs = signs';
            seen_from = seen_after;
            entry = found true m2;
          },
          record {
            same = net _ (
                stored-Same c m2 _ (record {
                  ip_list = same.ip_list;
                  t = same.t;
                  server_id = same.server_id;
                  observer = same.observer;
                }));
            others = left _ m2 (others _ (held c m signs' seen_after) (others _ m leaves.others));
          },
        ),
      )

  abbrev pub own : Network → Signature
  own m = own_signature p c.oracle c.sharing m (fresh c [])

  abbrev marked : Network → List (ℤ × Bool) → List (ℤ × Bool)
  marked m seen_from = (m.server_id, true) ∷ seen_from

  accept_client_share-runs :
      (m r : Network) (known : Bool) (signs : List Signature) (seen_from : List (ℤ × Bool))
      (delivered : Bool)
      → Opens c
      → Same c m
      → check_signatures p c.oracle c.sharing
          (held c m signs (marked m seen_from))
          l.id
          (entry c signs (marked m seen_from) false true)
        ≡ done r
      → lookup_id l.id r.received_shares ≡ some (entry c signs (marked m seen_from) delivered true)
      → let last = store l.id (entry c signs (marked m seen_from) delivered false) r in
        accept_client_share p c.oracle c.sharing m l.id known
          (entry c signs seen_from false true)
          (fresh c signs)
        ≡ done (flood (λ v. server_share v (fresh c signs)) last.ip_list last)
  unfolding accept_client_share mark_seen receive create_share_hash unlock_id unlock
  accept_client_share-runs m r known signs seen_from delivered h same checked at =
      rw
        (
          opens-Same c m signs h same,
          store_hash_self c (fresh c signs) (fresh c signs),
          checked,
          at,
        )
        refl

  -- A mark for a sender leaves the others as they are.
  pub lookup_sender-mark :
      (k j : ℤ) (seen_from : List (ℤ × Bool))
      → equal j k ≡ false
      → lookup_sender j ((k, true) ∷ seen_from) ≡ lookup_sender j seen_from
  unfolding lookup_sender
  lookup_sender-mark k j seen_from h = rw h refl

  accept_client_share-Adds :
      (old m : Network) (known : Bool) (signs : List Signature) (seen_from before : List (ℤ × Bool))
      → Opens c
      → Leaves old m
      → m.observed ≡ n.observed
      → ((j : ℤ) → equal j m.server_id ≡ false → lookup_sender j seen_from ≡ lookup_sender j before)
      → Adds old (own m) signs before (
          accept_client_share p c.oracle c.sharing m l.id known
            (entry c (signs ++ own m ∷ []) seen_from false true)
            (fresh c (signs ++ own m ∷ [])))
  accept_client_share-Adds old m known signs seen_from before h leaves quiet kept =
      ends old m (own m) signs before (marked m seen_from) _
        (λ r. flood (λ v. server_share v (fresh c (signs ++ own m ∷ []))) r.ip_list r) h leaves
        quiet (λ j other. lookup_sender-mark m.server_id j seen_from other ∙ kept j other)
        (λ r. refl) (λ r. refl)
        (λ r s. record {
          ip_list = s.ip_list;
          t = s.t;
          server_id = s.server_id;
          observer = s.observer;
        })
        (λ r delivered checked at.
          accept_client_share-runs m r known (signs ++ own m ∷ []) seen_from delivered h leaves.same
            checked at)

  stored-Leaves : (m : Network) (e : EncryptedShareSeenFrom) → Same c m → Leaves m (store l.id e m)
  stored-Leaves m e same = record {
    same = stored-Same c m e same;
    others = λ j other. lookup_id-store_id_other j l.id e m.received_shares other;
  }

  -- A submission by the client adds the server's own signature.
  pub receive_client_share-Adds :
      (m : Network) (signs : List Signature) (seen_from : List (ℤ × Bool))
      → Opens c
      → Same c m
      → m.observed ≡ n.observed
      → Entered m signs seen_from
      → Adds m (own m) signs seen_from (receive_client_share p c.oracle c.sharing m l)
  unfolding receive_client_share sign_client_share lock create_share_hash receive
  receive_client_share-Adds m _ _ h same quiet (none_yet new) =
      rw (receive_client_share, new)
        (accept_client_share-Adds m
          (store l.id (entry c (own m ∷ []) ((m.server_id, true) ∷ []) false true) m) false []
          ((m.server_id, true) ∷ []) [] h (stored-Leaves m _ same) quiet
          (λ j other. lookup_sender-mark m.server_id j [] other))
  receive_client_share-Adds m _ _ h same quiet (waits signs seen_from found) =
      rw
        (
          receive_client_share,
          found,
          received_self c signs seen_from,
          store_hash_self c (fresh c (signs ++ own m ∷ [])) (fresh c signs),
        )
        (accept_client_share-Adds m
          (store l.id (entry c (signs ++ own m ∷ []) seen_from false true) m) true signs seen_from
          seen_from h (stored-Leaves m _ same) quiet (λ j other. refl))
