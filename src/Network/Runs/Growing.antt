-- ===== src/Network/Runs/Growing.antt =====
-- server/src/NetworkHTTPSImpl.go: the votes passed on and the entries marked, handler by handler.
use digital_election_system.Common.{
  ℕ, ◌+◌, ◌≡◌, sym, ap, ◌∙◌, subst, Bool, true, false, Bool-cases, inl, inr, Option-cases, none,
  some, List, [], ◌∷◌, ◌++◌, if◌then◌else◌, arith,
}
use digital_election_system.Commitment.{ActiveSecretSharing}
use digital_election_system.Framework.{Share}
use digital_election_system.Knowledge.{Oracle}
use digital_election_system.Network.{
  done, must, SignedEncryptedShare, EncryptedShareSeenFrom, Signature, Message, Network, Platform,
  lookup_id, store, received, receive, seen, mark_seen, unlock, observe,
  transform_encrypted_share_list,
}
use digital_election_system.Network.Store.{
  step-done, done_inj, if-done, must-done, lookup_id-store_id, delivered_at, bit, delivered_entries,
  delivered_entries-store_id, UniqueIds, UniqueIds-store_id, unlock-delivered, mark_seen-delivered,
  receive-delivered,
}
use digital_election_system.Network.Opening.{decrypt_verify_share, create_share_hash}
use digital_election_system.Network.Challenges.{enough, challenge_votes}
use digital_election_system.Network.Checking.{
  deliver, decide_share, check_shares, check_signatures, unlock_id,
}
use digital_election_system.Network.Handlers.{
  server_at, find_new_signatures, verify_signatures, accept_server_share,
}
use digital_election_system.Network.Runs.Keeping.{
  arrivals, arrivals-append_arrived, Keeps, Keeps-refl, Keeps-store, delivered_at-lookup_id,
  challenge_votes-Keeps,
}

-- As many votes are passed on as entries become delivered.
pub record Grows (n n' : Network) : Type 0 where
  pub balance :
      arrivals n'.observed + delivered_entries n.received_shares
      ≡ arrivals n.observed + delivered_entries n'.received_shares
  pub ids : UniqueIds n.received_shares → UniqueIds n'.received_shares

pub Grows-trans : {l m n : Network} → Grows l m → Grows m n → Grows l n
Grows-trans h k = record {
  balance = omega (arith, h.balance, k.balance);
  ids = λ u. k.ids (h.ids u);
}

pub Keeps-Grows : {n n' : Network} → Keeps n n' → Grows n n'
Keeps-Grows k = record { balance = omega (arith, k.votes, k.marks); ids = k.ids }

pub Grows-done : {n m n' : Network} → Grows n m → done m ≡ done n' → Grows n n'
Grows-done {n = n} h d = subst (Grows n) (done_inj d) h

pub Grows-refl : (n : Network) → Grows n n
Grows-refl n = Keeps-Grows (Keeps-refl n)

pub Grows-store :
    (k : ℕ) (e : EncryptedShareSeenFrom) (n : Network)
    → e.delivered ≡ delivered_at k n.received_shares
    → Grows n (store k e n)
Grows-store k e n h = Keeps-Grows (Keeps-store k e n h)

-- What is sent does not count.
pub Grows-sent :
    {n : Network} (m : Network) (sent : List Message) (waiting : List (ℕ × SignedEncryptedShare))
    → Grows n m
    → Grows n (record m { outbox = sent; delayed = waiting })
Grows-sent m sent waiting g = record { balance = g.balance; ids = g.ids }

module _ (p : Platform) (o : Oracle) (a : ActiveSecretSharing) where
  deliver-Grows :
      (n : Network) {n' : Network} (id : ℕ) (share : Share) (s : SignedEncryptedShare)
      → delivered_at id n.received_shares ≡ false
      → deliver p o a n id share s ≡ done n'
      → Grows n n'
  unfolding deliver observe
  deliver-Grows n id share s unmarked h =
      let (e, held, h1) = step-done (must (lookup_id id n.received_shares)) h in
      elim (Bool-cases e.invalidated) [
        | inl invalid ↦ Grows-done (Grows-refl n) (rw invalid at h1)
        | inr valid ↦
            let (l, _, h2) =
              step-done (must (transform_encrypted_share_list s.encrypted_shares))
                (rw valid at h1) in
            Grows-done
              (record {
                balance = omega (
                  arith,
                  arrivals-append_arrived n.observed share l.proof,
                  delivered_entries-store_id id (record e { delivered = true; invalidated = false })
                      n.received_shares,
                  ap bit unmarked,
                );
                ids =
                    UniqueIds-store_id id (record e { delivered = true; invalidated = false })
                      n.received_shares;
              })
              (if-done n.observer h2)
      ]

  decide_share-Grows :
      (n : Network) {n' : Network} (id : ℕ) (e : EncryptedShareSeenFrom) (s : SignedEncryptedShare)
      → e.delivered ≡ delivered_at id n.received_shares
      → e.delivered ≡ false
      → decide_share p o a n id e s ≡ done n'
      → Grows n n'
  unfolding decide_share
  decide_share-Grows n {n' = n'} id e s same unmarked h =
      let ((share, key), _, h1) = step-done (decrypt_verify_share p o a n s) h in
      elim (Option-cases share) [
        | inl refused ↦
            let (e', freed, h2) =
              step-done (unlock (record e { invalidated = true })) (rw refused at h1) in
            Grows-done
              (Grows-sent (store id e' n) _ _ (
                Grows-store id e' n
                  (unlock-delivered (record e { invalidated = true }) freed ∙ same)))
              h2
        | inr (real, opened) ↦ elim (Bool-cases e.invalidated) [
          | inl invalid ↦ Grows-done (Grows-refl n) (rw (opened, invalid) at h1)
          | inr valid ↦
              let (m, judged, h2) =
                step-done (challenge_votes p o a n e.challenges) (rw (opened, valid) at h1) in
              let kept = challenge_votes-Keeps p o a n e.challenges judged in
              Grows-trans (Keeps-Grows kept)
                (deliver-Grows m id real s (kept.flags id ∙ sym same ∙ unmarked) h2)
        ]
      ]

  check_shares-Grows :
      (n : Network) {n' : Network} (id : ℕ) (e : EncryptedShareSeenFrom)
      (l : List (List ℕ × SignedEncryptedShare))
      → e.delivered ≡ delivered_at id n.received_shares
      → e.delivered ≡ false
      → check_shares p o a n id e l ≡ done n'
      → Grows n n'
  unfolding check_shares
  check_shares-Grows n id e [] same unmarked h = Grows-done (Grows-refl n) h
  check_shares-Grows n id e ((hash, s) ∷ l) same unmarked h = elim (Bool-cases (enough n s)) [
    | inl many ↦ decide_share-Grows n id e s same unmarked (rw many at h)
    | inr few ↦ check_shares-Grows n id e l same unmarked (rw few at h)
  ]

  check_signatures-Grows :
      (n : Network) {n' : Network} (id : ℕ) (e : EncryptedShareSeenFrom)
      → e.delivered ≡ delivered_at id n.received_shares
      → check_signatures p o a n id e ≡ done n'
      → Grows n n'
  unfolding check_signatures
  check_signatures-Grows n id e same h = elim (Bool-cases e.delivered) [
    | inl again ↦ Grows-done (Grows-refl n) (rw again at h)
    | inr unmarked ↦ elim (Option-cases e.shares_received) [
      | inl empty ↦ Grows-done (Grows-refl n) (rw (unmarked, empty) at h)
      | inr (l, full) ↦
          check_shares-Grows n id e (p.range_order l) same unmarked (rw (unmarked, full) at h)
    ]
  ]

  pub unlock_id-Grows :
      (n : Network) {n' : Network} (id : ℕ) → unlock_id p o a id n ≡ done n' → Grows n n'
  unfolding unlock_id
  unlock_id-Grows n id h =
      let (e, held, h1) = step-done (must (lookup_id id n.received_shares)) h in
      let (e', freed, h2) = step-done (unlock e) h1 in
      Grows-done
        (Grows-store id e' n (
          unlock-delivered e freed
          ∙ delivered_at-lookup_id id n (must-done (lookup_id id n.received_shares) held)))
        h2

  -- The end of the handlers that received a share: check, unlock.
  pub checked-Grows :
      (n : Network) {m n' : Network} (id : ℕ) (e : EncryptedShareSeenFrom)
      → e.delivered ≡ delivered_at id n.received_shares
      → check_signatures p o a (store id e n) id e ≡ done m
      → unlock_id p o a id m ≡ done n'
      → Grows n n'
  checked-Grows n {m = m} id e same h k = Grows-trans (Grows-store id e n same) (
      Grows-trans
        (check_signatures-Grows (store id e n) id e
          (delivered_at-lookup_id id (store id e n) (lookup_id-store_id id e n.received_shares)) h)
        (unlock_id-Grows m id k))

  verify_signatures-delivered :
      (n : Network) (hash : List ℕ) (new : List Signature) (s s' : SignedEncryptedShare)
      (e e' : EncryptedShareSeenFrom) (found found' : Bool)
      → verify_signatures p o a n hash new s e found ≡ done (s', e', found')
      → e'.delivered ≡ e.delivered
  unfolding verify_signatures
  verify_signatures-delivered n hash [] s s' e e' found found' h =
      ap (λ (r : SignedEncryptedShare × EncryptedShareSeenFrom × Bool). r.1.delivered)
        (sym (done_inj h))
  verify_signatures-delivered n hash (v ∷ rest) s s' e e' found found' h =
      elim (Bool-cases (seen v.sender e)) [
        | inl old ↦ verify_signatures-delivered n hash rest s s' e e' found found' (rw old at h)
        | inr unseen ↦
            let (ip, _, checked) = step-done (server_at v.sender n) (rw unseen at h) in
            elim (Bool-cases (p.verify ip.public_key hash v.sign)) [
              | inl valid ↦
                  let (e1, marked, went) =
                    step-done (mark_seen v.sender true e) (rw valid at checked) in
                  verify_signatures-delivered n hash rest
                    (record s { signatures = s.signatures ++ v ∷ [] }) s' e1 e' true found' went
                  ∙ mark_seen-delivered v.sender true e marked
              | inr invalid ↦
                  verify_signatures-delivered n hash rest s s' e e' found found'
                    (rw invalid at checked)
            ]
      ]

  pub accept_server_share-Grows :
      (n : Network) {n' : Network} (s : SignedEncryptedShare) (e : EncryptedShareSeenFrom)
      → e.delivered ≡ delivered_at s.encrypted_shares.id n.received_shares
      → accept_server_share p o a n s e ≡ done n'
      → Grows n n'
  unfolding accept_server_share
  accept_server_share-Grows n {n' = n'} s e same h =
      let id = s.encrypted_shares.id in
      let hash = create_share_hash p s in
      let known : SignedEncryptedShare = elim (received hash e) [
        | none ↦ record { signatures = []; encrypted_shares = s.encrypted_shares }
        | some old ↦ old
      ] in
      let ((s1, e1, new), verified, h1) =
        step-done
          (verify_signatures p o a n hash (find_new_signatures s.signatures known.signatures e)
            known e false)
          h in
      let (e2, put, h2) = step-done (receive hash s1 e1) h1 in
      let (m, checked, h3) = step-done (check_signatures p o a (store id e2 n) id e2) h2 in
      let (m', freed, h4) = step-done (unlock_id p o a id m) h3 in
      let kept : e2.delivered ≡ delivered_at id n.received_shares =
        receive-delivered hash s1 e1 put
        ∙ verify_signatures-delivered n hash _ known s1 e e1 false new verified
        ∙ same in
      last m' s1 (checked-Grows n id e2 kept checked freed) new h4
    where
      last :
          (m : Network) (s1 : SignedEncryptedShare)
          → Grows n m
          → (new : Bool)
          → done (
              if new
              then record m { delayed = m.delayed ++ (s.encrypted_shares.id, s1) ∷ [] }
              else m)
            ≡ done n'
          → Grows n n'
      last m s1 g true k = Grows-done (Grows-sent m _ _ g) k
      last m s1 g false k = Grows-done g k
