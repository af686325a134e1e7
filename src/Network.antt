-- ===== src/Network.antt =====
-- server/src/NetworkHTTPSImpl.go: the encrypted shares and signatures that the servers exchange. Here
-- are the messages and the state; the handlers are in Network/Handlers. A handler runs to its end before
-- the next starts, so a lock that is held when a handler starts was left held: waiting for it is
-- forever. receiverIdsLock is released on every path that ends, and has no field. What the source takes
-- from crypto, json and sort is in Platform.
pub mod Store
pub mod Participants
pub mod Opening
pub mod Challenges
pub mod Checking
pub mod Handlers
pub mod Queries
pub mod Runs
pub mod Start
pub mod Connections
pub mod Membership
use digital_election_system.Common.{
  ℕ, ◌+◌, Bool, true, false, Option, none, some, List, [], ◌∷◌, ◌++◌, ℤ, pos, negsuc, ◌==◌,
  if◌then◌else◌, ◌>>=◌, ◌&&◌,
}
use digital_election_system.Framework.{
  Share, MarshalFriendlyShare, ZeroKnowledge, ZeroKnowledgeMarshalFriendly, knowledge_for_network,
  transform_to_zero_knowledge, big_int_arr_to_str_arr, string_arr_to_big_int_arr,
}
use digital_election_system.Knowledge.{equal}

-- How a handler ends: with a result, with a panic or a fatal error, or waiting for a lock for ever.
pub data Outcome {ℓ} (A : Type ℓ) : Type ℓ where
  done : A → Outcome A
  panicked : Outcome A
  deadlocked : Outcome A

infixl 5 ◌>=>◌
abbrev pub ◌>=>◌ {ℓ κ} : {A : Type ℓ} {B : Type κ} → Outcome A → (A → Outcome B) → Outcome B
done a >=> f = f a
panicked >=> f = panicked
deadlocked >=> f = deadlocked

-- A step that panics when it has no value.
abbrev pub must {ℓ} : {A : Type ℓ} → Option A → Outcome A
must none = panicked
must (some a) = done a

pub record EncryptedShare : Type 0 where
  pub point : ℤ
  pub cipher_text : List ℕ
  pub encrypted_share_key : List ℕ

pub record EncryptedShareListMarshalFriendly : Type 0 where
  pub id : ℕ
  pub proof : List (List ℕ)
  pub knowledge : ZeroKnowledgeMarshalFriendly
  pub enc_shares : List EncryptedShare

pub record EncryptedShareList : Type 0 where
  pub sender : ℤ
  pub id : ℕ
  pub proof : List ℤ
  pub knowledge : ZeroKnowledge
  pub enc_shares : List EncryptedShare

unfoldable pub transform_to_marshal_friendly :
    EncryptedShareList → EncryptedShareListMarshalFriendly
transform_to_marshal_friendly e = record {
  id = e.id;
  proof = big_int_arr_to_str_arr e.proof;
  knowledge = knowledge_for_network e.knowledge;
  enc_shares = e.enc_shares;
}

-- A string that is not a number leaves a nil pointer, and reading it is a panic.
unfoldable pub transform_encrypted_share_list :
    EncryptedShareListMarshalFriendly → Option EncryptedShareList
transform_encrypted_share_list e = do
  proof ← string_arr_to_big_int_arr e.proof
  knowledge ← transform_to_zero_knowledge e.knowledge
  some (record {
    sender = pos 0;
    id = e.id;
    proof = proof;
    knowledge = knowledge;
    enc_shares = e.enc_shares;
  })

pub record Signature : Type 0 where
  pub sender : ℤ
  pub sign : List ℕ
  pub sent : Bool

pub record SignedEncryptedShare : Type 0 where
  pub signatures : List Signature
  pub encrypted_shares : EncryptedShareListMarshalFriendly

pub record ChallengeVoteStruct : Type 0 where
  pub id : ℕ
  pub secret_key : List ℕ
  pub hash : List ℕ
  pub sender : ℤ

-- A map that is nil is `none`: reading it finds nothing, and writing to it is a panic.
pub record EncryptedShareSeenFrom : Type 0 where
  pub shares_received : Option (List (List ℕ × SignedEncryptedShare))
  pub signatures_seen_from : Option (List (ℤ × Bool))
  pub delivered : Bool
  pub invalidated : Bool
  pub challenges : List ChallengeVoteStruct
  pub locked : Bool

pub record IpStruct : Type 0 where
  pub ip : List ℕ
  pub port : List ℕ
  pub rpc_port : List ℕ
  pub public_key : List ℕ

-- What a server sends: a new participant, a share, a challenge, or the status 400 to the client.
pub data Message : Type 0 where
  new_participant : IpStruct → IpStruct → Message
  server_share : IpStruct → SignedEncryptedShare → Message
  challenge : IpStruct → ChallengeVoteStruct → Message
  bad_request : Message

-- What it tells its observer, the controller.
pub data Event : Type 0 where
  new_share_arrived : Share → List ℤ → Event
  revoke_vote : Share → List ℤ → Event

-- NetworkHTTPS. `delayed` are the calls of sendDelayedMessage that have still to run, `outbox` what is
-- sent and `observed` what the observer has been told.
pub record Network : Type 0 where
  pub ip_list : List IpStruct
  pub received_shares : List (ℕ × EncryptedShareSeenFrom)
  pub observer : Bool
  pub t : ℕ
  pub server_id : ℤ
  pub delayed : List (ℕ × SignedEncryptedShare)
  pub outbox : List Message
  pub observed : List Event

-- crypto, json, math/rand and the order in which Go ranges over a map. The key of the server is in
-- `sign` and `decrypt_key`; a length that is no AES key size has `key_size` false.
pub record Platform : Type 0 where
  pub share_hash : EncryptedShareListMarshalFriendly → List ℕ
  pub sign : List ℕ → List ℕ
  pub verify : List ℕ → List ℕ → List ℕ → Bool
  pub decrypt_key : List ℕ → Option (List ℕ)
  pub key_size : ℕ → Bool
  pub nonce_size : ℕ
  pub open_box : List ℕ → List ℕ → List ℕ → Option (List ℕ)
  pub read_marshal_share : List ℕ → MarshalFriendlyShare
  pub read_share : List ℕ → Option Share
  pub range_order : List (List ℕ × SignedEncryptedShare) → List (List ℕ × SignedEncryptedShare)
  pub shuffle : List IpStruct → List IpStruct

unfoldable pub same_text : List ℕ → List ℕ → Bool
same_text [] [] = true
same_text (x ∷ xs) (y ∷ ys) = (x == y) && same_text xs ys
same_text _ _ = false

unfoldable pub lookup_id : ℕ → List (ℕ × EncryptedShareSeenFrom) → Option EncryptedShareSeenFrom
lookup_id k [] = none
lookup_id k ((j, e) ∷ m) = if k == j then some e else lookup_id k m

-- A write replaces the entry of the key, or adds one.
unfoldable pub store_id :
    ℕ
    → EncryptedShareSeenFrom
    → List (ℕ × EncryptedShareSeenFrom)
    → List (ℕ × EncryptedShareSeenFrom)
store_id k e [] = (k, e) ∷ []
store_id k e ((j, e') ∷ m) = if k == j then (j, e) ∷ m else (j, e') ∷ store_id k e m

abbrev pub store : ℕ → EncryptedShareSeenFrom → Network → Network
store k e n = record n { received_shares = store_id k e n.received_shares }

unfoldable pub lookup_hash :
    List ℕ → List (List ℕ × SignedEncryptedShare) → Option SignedEncryptedShare
lookup_hash h [] = none
lookup_hash h ((j, s) ∷ m) = if same_text h j then some s else lookup_hash h m

unfoldable pub store_hash :
    List ℕ
    → SignedEncryptedShare
    → List (List ℕ × SignedEncryptedShare)
    → List (List ℕ × SignedEncryptedShare)
store_hash h s [] = (h, s) ∷ []
store_hash h s ((j, s') ∷ m) = if same_text h j then (j, s) ∷ m else (j, s') ∷ store_hash h s m

unfoldable pub lookup_sender : ℤ → List (ℤ × Bool) → Bool
lookup_sender k [] = false
lookup_sender k ((j, v) ∷ m) = if equal k j then v else lookup_sender k m

-- Reads of maps that may be nil.
unfoldable pub received : List ℕ → EncryptedShareSeenFrom → Option SignedEncryptedShare
received h e = e.shares_received >>= lookup_hash h

unfoldable pub seen : ℤ → EncryptedShareSeenFrom → Bool
seen k e = elim e.signatures_seen_from [ none ↦ false | some m ↦ lookup_sender k m ]

-- Writes to maps that may be nil.
unfoldable pub receive :
    List ℕ → SignedEncryptedShare → EncryptedShareSeenFrom → Outcome EncryptedShareSeenFrom
receive h s e =
    must e.shares_received >=> (λ m. done (record e { shares_received = some (store_hash h s m) }))

unfoldable pub mark_seen : ℤ → Bool → EncryptedShareSeenFrom → Outcome EncryptedShareSeenFrom
mark_seen k b e =
    must e.signatures_seen_from
    >=> (λ m. done (record e { signatures_seen_from = some ((k, b) ∷ m) }))

unfoldable pub lock : EncryptedShareSeenFrom → Outcome EncryptedShareSeenFrom
lock e = if e.locked then deadlocked else done (record e { locked = true })

-- The unlock of a mutex that is not locked is a fatal error.
unfoldable pub unlock : EncryptedShareSeenFrom → Outcome EncryptedShareSeenFrom
unlock e = if e.locked then done (record e { locked = false }) else panicked

unfoldable pub observe : Event → Network → Outcome Network
observe x n = if n.observer then done (record n { observed = n.observed ++ x ∷ [] }) else panicked

unfoldable pub add_observer : Network → Network
add_observer n = record n { observer = true }

unfoldable pub remove_observer : Network → Network
remove_observer n = record n { observer = false }
