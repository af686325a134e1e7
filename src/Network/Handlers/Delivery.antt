-- ===== src/Network/Handlers/Delivery.antt =====
-- server/src/NetworkHTTPSImpl.go: what _CheckSignatures delivers.
use mathlib.Core.List.{Memᴰ}
use mathlib.Core.List.Memᴰ.{head, tail}
use digital_election_system.Common.{
  or_else, ℕ, ◌≡◌, ◌⊎◌, refl, sym, ap, ◌∙◌, subst, Bool, true, false, Bool-cases, inl, inr, Option,
  Option-cases, none, some, List, [], ◌∷◌, ◌++◌, ℤ, if◌then◌else◌, ◌&&◌, leb, length,
}
use digital_election_system.Commitment.{ActiveSecretSharing}
use digital_election_system.Framework.{Share, ZeroKnowledge, transform_to_share}
use digital_election_system.Knowledge.{Oracle}
use digital_election_system.Sharing.{verify_share}
use digital_election_system.Network.{
  Outcome, done, panicked, must, EncryptedShare, EncryptedShareList, SignedEncryptedShare,
  EncryptedShareSeenFrom, new_share_arrived, Network, Platform, lookup_id, store_id, unlock,
  observe, transform_encrypted_share_list,
}
use digital_election_system.Network.Challenges.{enough, challenge_votes}
use digital_election_system.Network.Opening.{
  decrypt_share, decrypt_own, decrypt_verify_share, find_point, take_first, drop_first,
}
use digital_election_system.Network.Checking.{deliver, decide_share, check_shares, check_signatures}
use digital_election_system.Network.Store.{
  step-done, done_inj, must-done, if-done, lookup_id-store_id,
}

module _ (p : Platform) (o : Oracle) (a : ActiveSecretSharing) where
  -- What a delivery of the signed share means: n - t signatures are counted for it, the entry is neither
  -- delivered nor invalidated, and the observer is told of the share that the server decrypts from it and
  -- of its proof, which VerifyShare accepts together.
  pub record IsDelivery (n n' : Network) (id : ℕ) (e : EncryptedShareSeenFrom)
      (signed : SignedEncryptedShare) : Type 0 where
    pub share : Share
    pub key : List ℕ
    pub list : EncryptedShareList
    pub counted : enough n signed ≡ true
    pub undelivered : e.delivered ≡ false
    pub valid : e.invalidated ≡ false
    pub made : transform_encrypted_share_list signed.encrypted_shares ≡ some list
    pub opened : decrypt_verify_share p o a n signed ≡ done (some share, key)
    pub verified : verify_share o a share list.proof (some list.knowledge) ≡ some true
    pub told : n'.observed ≡ n.observed ++ new_share_arrived share list.proof ∷ []
    pub marked :
        lookup_id id n'.received_shares ≡ some (record e { delivered = true; invalidated = false })

  decrypt_share-verified :
      (v : EncryptedShare) (proof : List ℤ) (knowledge : ZeroKnowledge) {share : Share}
      {verified : Bool} {key : List ℕ}
      → decrypt_share p o a v proof knowledge ≡ done (share, verified, key)
      → verify_share o a share proof (some knowledge) ≡ some verified
  unfolding decrypt_share
  decrypt_share-verified v proof knowledge h =
      let (key', _, h1) = step-done (must (p.decrypt_key v.encrypted_share_key)) h in
      let h2 = if-done (p.key_size (length key') && leb p.nonce_size (length v.cipher_text)) h1 in
      let (msg, _, h3) =
        step-done
          (must (
            p.open_box key' (take_first p.nonce_size v.cipher_text)
              (drop_first p.nonce_size v.cipher_text)))
          h2 in
      let (res, _, h4) = step-done (must (transform_to_share (p.read_marshal_share msg))) h3 in
      let (verified', checked, h5) =
        step-done (must (verify_share o a res proof (some knowledge))) h4 in
      subst (λ (r : Share × Bool × List ℕ). verify_share o a r.0 proof (some knowledge) ≡ some r.1)
        (done_inj h5) (must-done (verify_share o a res proof (some knowledge)) checked)

  decrypt_own-verified :
      (l : EncryptedShareList) (own : Option EncryptedShare) {share : Share} {key : List ℕ}
      → decrypt_own p o a l own ≡ done (some share, key)
      → verify_share o a share l.proof (some l.knowledge) ≡ some true
  unfolding decrypt_own
  decrypt_own-verified l none h = cc
  decrypt_own-verified l (some v) {share = share} {key = key} h =
      let ((res, verified, key'), decrypted, h1) =
        step-done (decrypt_share p o a v l.proof l.knowledge) h in
      accepted res verified key' (decrypt_share-verified v l.proof l.knowledge decrypted) h1
    where
      accepted :
          (res : Share) (verified : Bool) (key' : List ℕ)
          → verify_share o a res l.proof (some l.knowledge) ≡ some verified
          → ◌≡◌ {A = Outcome (Option Share × List ℕ)}
              (done (if verified then some res else none, key'))
              (done (some share, key))
          → verify_share o a share l.proof (some l.knowledge) ≡ some true
      accepted res true key' ok q =
          subst (λ (r : Share). verify_share o a r l.proof (some l.knowledge) ≡ some true)
            (ap (λ (r : Option Share × List ℕ). or_else res r.0) (done_inj q)) ok
      accepted res false key' ok q = cc

  decrypt_verify_share-verified :
      (n : Network) (s : SignedEncryptedShare) {share : Share} {key : List ℕ}
      → decrypt_verify_share p o a n s ≡ done (some share, key)
      → (l : EncryptedShareList) × (transform_encrypted_share_list s.encrypted_shares ≡ some l)
        × (verify_share o a share l.proof (some l.knowledge) ≡ some true)
  unfolding decrypt_verify_share
  decrypt_verify_share-verified n s h =
      let (l, made, h1) = step-done (must (transform_encrypted_share_list s.encrypted_shares)) h in
      (
        l,
        must-done (transform_encrypted_share_list s.encrypted_shares) made,
        decrypt_own-verified l (find_point n.server_id l.enc_shares) h1,
      )

  deliver-IsDelivery :
      (n n' : Network) (id : ℕ) (e : EncryptedShareSeenFrom) (s : SignedEncryptedShare)
      (share : Share) {key : List ℕ}
      → decrypt_verify_share p o a n s ≡ done (some share, key)
      → e.delivered ≡ false
      → e.invalidated ≡ false
      → lookup_id id n.received_shares ≡ some e
      → enough n s ≡ true
      → (l : EncryptedShareList) × (transform_encrypted_share_list s.encrypted_shares ≡ some l)
        × (verify_share o a share l.proof (some l.knowledge) ≡ some true)
      → deliver p o a n id share s ≡ done n'
      → IsDelivery n n' id e s
  unfolding deliver observe
  deliver-IsDelivery n n' id e s share {key = key} opened undelivered valid held many (l, made, ok)
        h =
      let h1 : (if n.observer then done (told l) else panicked) ≡ done n' =
        rw (deliver, held, valid, made, observe) at h in
      let same = done_inj (if-done n.observer h1) in
      record {
        share = share;
        key = key;
        list = l;
        counted = many;
        undelivered = undelivered;
        valid = valid;
        made = made;
        opened = opened;
        verified = ok;
        told = ap (λ (m : Network). m.observed) (sym same);
        marked =
            ap (λ (m : Network). lookup_id id m.received_shares) (sym same)
            ∙ lookup_id-store_id id (record e { delivered = true; invalidated = false })
                n.received_shares;
      }
    where
      told : EncryptedShareList → Network
      told l = record n {
        received_shares =
            store_id id (record e { delivered = true; invalidated = false }) n.received_shares;
        observed = n.observed ++ new_share_arrived share l.proof ∷ [];
      }

  decide_share-IsDelivery :
      (n n' : Network) (id : ℕ) (e : EncryptedShareSeenFrom) (s : SignedEncryptedShare)
      → e.challenges ≡ []
      → e.delivered ≡ false
      → lookup_id id n.received_shares ≡ some e
      → enough n s ≡ true
      → decide_share p o a n id e s ≡ done n'
      → (n'.observed ≡ n.observed) ⊎ IsDelivery n n' id e s
  unfolding decide_share challenge_votes
  decide_share-IsDelivery n n' id e s quiet undelivered held many h =
      let ((share, key), decrypted, h1) = step-done (decrypt_verify_share p o a n s) h in
      elim (Option-cases share) [
        | inl refused ↦
            let (e', _, h2) =
              step-done (unlock (record e { invalidated = true })) (rw refused at h1) in
            inl (ap (λ (m : Network). m.observed) (sym (done_inj h2)))
        | inr (real, opened) ↦ elim (Bool-cases e.invalidated) [
          | inl invalid ↦
              inl (ap (λ (m : Network). m.observed) (sym (done_inj (rw (opened, invalid) at h1))))
          | inr valid ↦
              let whole = decrypted ∙ ap (λ (r : Option Share). done (r, key)) opened in
              inr (
                deliver-IsDelivery n n' id e s real whole undelivered valid held many
                  (decrypt_verify_share-verified n s whole) (rw (opened, valid, quiet) at h1))
        ]
      ]

  -- A share among those of a list is delivered.
  abbrev pub Delivers :
      Network → Network → ℕ → EncryptedShareSeenFrom → List (List ℕ × SignedEncryptedShare) → Type 0
  Delivers n n' id e l =
      (hash : List ℕ) × (s : SignedEncryptedShare) × Memᴰ {A = List ℕ × SignedEncryptedShare}
        (hash, s) l
      × IsDelivery n n' id e s

  check_shares-IsDelivery :
      (n n' : Network) (id : ℕ) (e : EncryptedShareSeenFrom)
      (l : List (List ℕ × SignedEncryptedShare))
      → e.challenges ≡ []
      → e.delivered ≡ false
      → lookup_id id n.received_shares ≡ some e
      → check_shares p o a n id e l ≡ done n'
      → (n'.observed ≡ n.observed) ⊎ Delivers n n' id e l
  unfolding check_shares
  check_shares-IsDelivery n n' id e [] quiet undelivered held h =
      inl (ap (λ (m : Network). m.observed) (sym (done_inj h)))
  check_shares-IsDelivery n n' id e ((hash, s) ∷ rest) quiet undelivered held h =
      elim (Bool-cases (enough n s)) [
        | inl many ↦
            elim (decide_share-IsDelivery n n' id e s quiet undelivered held many (rw many at h)) [
              | inl same ↦ inl same
              | inr d ↦ inr (hash, s, head refl, d)
            ]
        | inr few ↦
            elim (check_shares-IsDelivery n n' id e rest quiet undelivered held (rw few at h)) [
              | inl same ↦ inl same
              | inr (hash', s', m, d) ↦ inr (hash', s', tail m, d)
            ]
      ]

  -- When _CheckSignatures ends for an entry without pending challenges, the observer has been told
  -- nothing new, or it has been told of exactly one vote: a share that the entry holds, for which n - t
  -- signatures are counted, and whose decryption VerifyShare accepts with the proof that is handed on.
  -- The entry was neither delivered nor invalidated before, and is marked as delivered now.
  pub check_signatures-IsDelivery :
      (n n' : Network) (id : ℕ) (e : EncryptedShareSeenFrom)
      → e.challenges ≡ []
      → lookup_id id n.received_shares ≡ some e
      → check_signatures p o a n id e ≡ done n'
      → (n'.observed ≡ n.observed)
        ⊎ ((l : List (List ℕ × SignedEncryptedShare)) × (e.shares_received ≡ some l)
            × Delivers n n' id e (p.range_order l))
  unfolding check_signatures
  check_signatures-IsDelivery n n' id e quiet held h = elim (Bool-cases e.delivered) [
    | inl again ↦ inl (ap (λ (m : Network). m.observed) (sym (done_inj (rw again at h))))
    | inr undelivered ↦ elim (Option-cases e.shares_received) [
      | inl empty ↦
          inl (ap (λ (m : Network). m.observed) (sym (done_inj (rw (undelivered, empty) at h))))
      | inr (l, full) ↦
          elim (check_shares-IsDelivery n n' id e (p.range_order l) quiet undelivered held
            (rw (undelivered, full) at h)) [ inl same ↦ inl same | inr d ↦ inr (l, full, d) ]
    ]
  ]
