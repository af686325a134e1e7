-- ===== src/Network/Handlers/Panics.antt =====
-- server/src/NetworkHTTPSImpl.go: what ReceiveServerShare does with the number of a sender that is not in
-- the list of servers.
use digital_election_system.Common.{
  ℕ, ◌≡◌, ◌≤◌, refl, Bool, true, false, none, some, List, [], ◌∷◌, arith, length, ℤ, pos, negsuc,
  zero, suc, get_elem?,
}
use digital_election_system.Commitment.{ActiveSecretSharing}
use digital_election_system.Knowledge.{Oracle}
use digital_election_system.Network.{
  Outcome, panicked, Signature, SignedEncryptedShare, EncryptedShareSeenFrom, Network, Platform,
  lookup_id, received, seen, lookup_sender, lookup_hash,
}
use digital_election_system.Network.Handlers.{
  has_sender, find_new_signatures, server_at, verify_signatures, accept_server_share,
  receive_server_share,
}

-- An index that a slice of n places does not have.
pub data Outside (n : ℕ) : ℤ → Type 0 where
  below : {k : ℕ} → Outside n (negsuc k)
  above : {k : ℕ} → n ≤ k → Outside n (pos k)

get_elem?-above {ℓ} : {A : Type ℓ} (l : List A) (k : ℕ) → length l ≤ k → get_elem? l k ≡ none
get_elem?-above [] k h = refl
get_elem?-above (x ∷ l) zero h = absurd (omega (arith, h))
get_elem?-above (x ∷ l) (suc k) h = get_elem?-above l k (omega (arith, h))

server_at-panicked : (n : Network) (k : ℤ) → Outside (length n.ip_list) k → server_at k n ≡ panicked
unfolding server_at
server_at-panicked n (negsuc k) below = refl
server_at-panicked n (pos k) (above h) = rw (get_elem?-above n.ip_list k h)

module _ (p : Platform) (o : Oracle) (a : ActiveSecretSharing) where
  -- An entry of an id that was not seen before.
  abbrev fresh : EncryptedShareSeenFrom
  fresh = record {
    shares_received = some [];
    signatures_seen_from = some [];
    delivered = false;
    invalidated = false;
    challenges = [];
    locked = true;
  }

  new_signatures :
      (v : Signature) (rest : List Signature)
      → find_new_signatures (v ∷ rest) [] fresh ≡ v ∷ find_new_signatures rest [] fresh
  unfolding find_new_signatures has_sender seen lookup_sender
  new_signatures v rest = refl

  first_signature :
      (n : Network) (hash : List ℕ) (v : Signature) (rest : List Signature)
      (s : SignedEncryptedShare)
      → Outside (length n.ip_list) v.sender
      → ◌≡◌ {A = Outcome (SignedEncryptedShare × EncryptedShareSeenFrom × Bool)}
          (verify_signatures p o a n hash (v ∷ rest) s fresh false)
          panicked
  unfolding verify_signatures seen lookup_sender
  first_signature n hash v rest s outside = rw (server_at-panicked n v.sender outside)

  accept_server_share-panicked :
      (n : Network) (m : SignedEncryptedShare) (v : Signature) (rest : List Signature)
      → m.signatures ≡ v ∷ rest
      → Outside (length n.ip_list) v.sender
      → accept_server_share p o a n m fresh ≡ panicked
  unfolding accept_server_share received lookup_hash
  accept_server_share-panicked n m v rest signed outside =
      rw (signed, new_signatures v rest, first_signature n _ v _ _ outside)

  -- A share of an id that was not seen before, whose first signature names a sender that is not an index
  -- of the list of servers, makes ReceiveServerShare panic.
  pub receive_server_share-panicked :
      (n : Network) (m : SignedEncryptedShare) (v : Signature) (rest : List Signature)
      → m.signatures ≡ v ∷ rest
      → Outside (length n.ip_list) v.sender
      → lookup_id m.encrypted_shares.id n.received_shares ≡ none
      → receive_server_share p o a n m ≡ panicked
  unfolding receive_server_share
  receive_server_share-panicked n m v rest signed outside unseen =
      rw (receive_server_share, unseen) (accept_server_share-panicked n m v rest signed outside)
