-- ===== src/Client/Opening.antt =====
-- Client/client.go and server/src/NetworkHTTPSImpl.go: a server opens the share that a client encrypted
-- for it.
use digital_election_system.Common.{
  or_else, ℕ, zero, suc, ◌≤◌, ◌≡◌, refl, ap, Bool, true, Option, none, some, List, [], ◌∷◌, ◌++◌, ℤ,
  pos, leb, length, length-append, get_elem?, arith, Option-cases, inl, inr, subst,
}
use digital_election_system.Framework.{
  Share, MarshalFriendlyShare, ZeroKnowledge, share_for_network,
}
use digital_election_system.Framework.RoundTrip.{transform_to_share-share_for_network}
use digital_election_system.Knowledge.{Oracle}
use digital_election_system.Commitment.{ActiveSecretSharing}
use digital_election_system.Sharing.{verify_share}
use digital_election_system.Network.{Platform, IpStruct, EncryptedShare, done}
use digital_election_system.Network.Opening.{take_first, drop_first, decrypt_share}
use digital_election_system.Client.{Sealing, check_bytesize, encrypt_share}

-- What the packages promise to a server `p` whose public key is in `ip`: RSA, AES-GCM and json undo what
-- the client's side did, and a nonce has the length of NonceSize.
pub record IsOpener (p : Platform) (c : Sealing) (ip : IpStruct) : Type 0 where
  pub rsa :
      (key enc : List ℕ) → c.encrypt ip.public_key key ≡ some enc → p.decrypt_key enc ≡ some key
  pub gcm : (key nonce msg : List ℕ) → p.open_box key nonce (c.seal key nonce msg) ≡ some msg
  pub json : (m : MarshalFriendlyShare) → p.read_marshal_share (c.marshal m) ≡ m
  pub sizes : (i : ℕ) → p.key_size (length (c.key i)) ≡ true
  pub nonces : (i : ℕ) → length (c.nonce i) ≡ p.nonce_size

pub take_first-append : (k : ℕ) (l r : List ℕ) → length l ≡ k → take_first k (l ++ r) ≡ l
unfolding take_first
take_first-append zero [] r h = refl
take_first-append zero (x ∷ l) r h = absurd (omega (arith, h))
take_first-append (suc k) [] r h = absurd (omega (arith, h))
take_first-append (suc k) (x ∷ l) r h = ap (λ t. x ∷ t) (take_first-append k l r (omega (arith, h)))

pub drop_first-append : (k : ℕ) (l r : List ℕ) → length l ≡ k → drop_first k (l ++ r) ≡ r
unfolding drop_first
drop_first-append zero [] r h = refl
drop_first-append zero (x ∷ l) r h = absurd (omega (arith, h))
drop_first-append (suc k) [] r h = absurd (omega (arith, h))
drop_first-append (suc k) (x ∷ l) r h = drop_first-append k l r (omega (arith, h))

leb_of_le : (m n : ℕ) → m ≤ n → leb m n ≡ true
leb_of_le m n h = ground arith

opened :
    (p : Platform) (o : Oracle) (a : ActiveSecretSharing) (c : Sealing) (ip : IpStruct) (i : ℕ)
    (v : Share) (enc : List ℕ) (proof : List ℤ) (zk : ZeroKnowledge) (verified : Bool)
    → IsOpener p c ip
    → c.encrypt ip.public_key (c.key i) ≡ some enc
    → verify_share o a v proof (some zk) ≡ some verified
    → decrypt_share p o a
        (record {
          point = pos i;
          cipher_text = c.nonce i ++ c.seal (c.key i) (c.nonce i) (c.marshal (share_for_network v));
          encrypted_share_key = enc;
        })
        proof
        zk
      ≡ done (v, verified, c.key i)
unfolding decrypt_share
opened p o a c ip i v enc proof zk verified opener sealed ok =
    let box = c.seal (c.key i) (c.nonce i) (c.marshal (share_for_network v)) in
    let long_enough : leb p.nonce_size (length (c.nonce i ++ box)) ≡ true =
      leb_of_le p.nonce_size (length (c.nonce i ++ box))
        (omega (arith, length-append (c.nonce i) box, opener.nonces i)) in
    rw
      (
        decrypt_share,
        opener.rsa (c.key i) enc sealed,
        opener.sizes i,
        long_enough,
        take_first-append p.nonce_size (c.nonce i) box (opener.nonces i),
        drop_first-append p.nonce_size (c.nonce i) box (opener.nonces i),
        opener.gcm (c.key i) (c.nonce i) (c.marshal (share_for_network v)),
        opener.json (share_for_network v),
        transform_to_share-share_for_network v,
        ok,
      )
      refl

-- The share that generateShares encrypts for the server at index i is the share that decryptShare of
-- that server opens, with the verdict of VerifyShare and the key, given what RSA, AES-GCM and json
-- promise.
pub decrypt_share-encrypt_share :
    (p : Platform) (o : Oracle) (a : ActiveSecretSharing) (c : Sealing) (ips : List IpStruct)
    (ip : IpStruct) (i : ℕ) (v : Share) (e : EncryptedShare) (proof : List ℤ) (zk : ZeroKnowledge)
    (verified : Bool)
    → IsOpener p c ip
    → get_elem? ips i ≡ some ip
    → encrypt_share c ips i v ≡ some e
    → verify_share o a v proof (some zk) ≡ some verified
    → decrypt_share p o a e proof zk ≡ done (v, verified, c.key i)
unfolding encrypt_share check_bytesize
decrypt_share-encrypt_share p o a c ips ip i v e proof zk verified opener at_i made ok =
    elim (Option-cases (c.encrypt ip.public_key (c.key i))) [
      | inl failed ↦
          let refused : ◌≡◌ {A = Option EncryptedShare} none (some e) =
            rw (encrypt_share, at_i, failed) at made in
          cc
      | inr (enc, sealed) ↦
          let box : EncryptedShare = record {
            point = pos i;
            cipher_text =
                c.nonce i ++ c.seal (c.key i) (c.nonce i) (c.marshal (share_for_network v));
            encrypted_share_key = enc;
          } in
          let same : some box ≡ some e = rw (encrypt_share, at_i, sealed) at made in
          subst
            (λ (b : EncryptedShare). decrypt_share p o a b proof zk ≡ done (v, verified, c.key i))
            (ap (or_else e) same) (opened p o a c ip i v enc proof zk verified opener sealed ok)
    ]
