-- ===== src/Network/Opening.antt =====
-- server/src/NetworkHTTPSImpl.go: a server opens the share that is encrypted for it, and checks it.
use digital_election_system.Common.{
  ℕ, zero, suc, Bool, Option, none, some, List, [], ◌∷◌, ℤ, if◌then◌else◌, leb, length, ◌&&◌,
}
use digital_election_system.Framework.{Share, ZeroKnowledge, transform_to_share}
use digital_election_system.Knowledge.{Oracle, equal}
use digital_election_system.Commitment.{ActiveSecretSharing}
use digital_election_system.Sharing.{verify_share}
use digital_election_system.Network.{
  Outcome, done, panicked, ◌>=>◌, must, EncryptedShare, EncryptedShareList,
  transform_encrypted_share_list, SignedEncryptedShare, Network, Platform, same_text,
}

-- The first share for a point.
unfoldable pub find_point : ℤ → List EncryptedShare → Option EncryptedShare
find_point k [] = none
find_point k (v ∷ shares) = if equal v.point k then some v else find_point k shares

unfoldable pub take_first : ℕ → List ℕ → List ℕ
take_first zero l = []
take_first (suc k) [] = []
take_first (suc k) (x ∷ l) = x ∷ take_first k l

unfoldable pub drop_first : ℕ → List ℕ → List ℕ
drop_first zero l = l
drop_first (suc k) [] = []
drop_first (suc k) (x ∷ l) = drop_first k l

unfoldable pub create_share_hash : Platform → SignedEncryptedShare → List ℕ
create_share_hash p s = p.share_hash s.encrypted_shares

unfoldable pub compare_encrypted_share_hash : Platform → SignedEncryptedShare → List ℕ → Bool
compare_encrypted_share_hash p s hash = same_text (create_share_hash p s) hash

module _ (p : Platform) (o : Oracle) (a : ActiveSecretSharing) where
  -- decryptShare: the share, whether it is verified, and the key.
  unfoldable pub decrypt_share :
      EncryptedShare → List ℤ → ZeroKnowledge → Outcome (Share × Bool × List ℕ)
  decrypt_share e proof knowledge = must (p.decrypt_key e.encrypted_share_key) >=> (λ key.
      if p.key_size (length key) && leb p.nonce_size (length e.cipher_text)
      then must (
          p.open_box key (take_first p.nonce_size e.cipher_text)
            (drop_first p.nonce_size e.cipher_text))
        >=> (λ msg. must (transform_to_share (p.read_marshal_share msg)) >=> (λ res.
            must (verify_share o a res proof (some knowledge))
            >=> (λ verified. done (res, verified, key))))
      else panicked)

  -- _DecryptVerifyShare: the share, or none for the error, and the key. The loop ends at the first share
  -- of the server.
  unfoldable pub decrypt_own :
      EncryptedShareList → Option EncryptedShare → Outcome (Option Share × List ℕ)
  decrypt_own l none = done (none, [])
  decrypt_own l (some v) =
      decrypt_share v l.proof l.knowledge
      >=> (λ (share, verified, key). done (if verified then some share else none, key))

  unfoldable pub decrypt_verify_share :
      Network → SignedEncryptedShare → Outcome (Option Share × List ℕ)
  decrypt_verify_share n s =
      must (transform_encrypted_share_list s.encrypted_shares)
      >=> (λ l. decrypt_own l (find_point n.server_id l.enc_shares))
