-- ===== src/NetworkTests.antt =====
-- The theorems on the network and the client at concrete inputs: two servers and threshold 1, so that
-- one signature is enough.
use mathlib.Core.List.{Memᴰ}
use digital_election_system.Common.{
  ℕ, zero, suc, ◌+◌, ◌≡◌, ◌≢◌, ◌↔◌, ◌⊎◌, refl, sym, Bool, true, false, not, Option, none, some,
  List, [], ◌∷◌, ◌++◌, length, All, ℤ, pos, negsuc, ◌==◌, if◌then◌else◌,
}
use digital_election_system.Framework.{Share, MarshalFriendlyShare, ZeroKnowledge}
use digital_election_system.Commitment.{ActiveSecretSharing}
use digital_election_system.Knowledge.{Oracle}
use digital_election_system.Sharing.{verify_share}
use digital_election_system.Network.{
  done, deadlocked, EncryptedShare, EncryptedShareListMarshalFriendly, Signature,
  SignedEncryptedShare, ChallengeVoteStruct, EncryptedShareSeenFrom, IpStruct, Event,
  new_share_arrived, Network, Platform, seen, same_text,
}
use digital_election_system.Network.Opening.{take_first, drop_first, decrypt_share}
use digital_election_system.Network.Checking.{decide_share}
use digital_election_system.Network.Handlers.{find_new_signatures, receive_server_share}
use digital_election_system.Network.Handlers.Signatures.{
  IsCounted, Unique, verify_signatures-Unique,
}
use digital_election_system.Network.Handlers.NewSignatures.{Marked, find_new_signatures_lem}
use digital_election_system.Network.Handlers.Delivery.{Delivers, check_signatures-IsDelivery}
use digital_election_system.Network.Handlers.Waiting.{
  receive_server_share-challenge_vote, decide_share-challenge_vote,
}
use digital_election_system.Client.{Sealing, encrypt_share}
use digital_election_system.Client.Opening.{
  IsOpener, take_first-append, drop_first-append, decrypt_share-encrypt_share,
}

abbrev pub a : ActiveSecretSharing
a = record { parties = 4; threshold = 1; prime_p = 23; prime_q = 11; t_bit = 3; g = 2; h = 3 }

abbrev pub o : Oracle
o = record { shake = λ n l. l; id_string = λ i. i ∷ [] }

abbrev magnitude : ℤ → ℕ
magnitude (pos n) = n
magnitude (negsuc n) = n

abbrev negative : ℤ → Bool
negative (pos n) = false
negative (negsuc n) = true

abbrev integer : Bool → ℕ → ℤ
integer false n = pos n
integer true n = negsuc n

integer_self : (z : ℤ) → integer (negative z) (magnitude z) ≡ z
integer_self (pos n) = refl
integer_self (negsuc n) = refl

abbrev flag : Bool → ℕ
flag true = 1
flag false = 0

flag_self : (b : Bool) → (flag b == 1) ≡ b
flag_self true = refl
flag_self false = refl

-- A text for a share: the sign and the size of the point, the id, the length of s, s and t.
abbrev write_share : MarshalFriendlyShare → List ℕ
write_share m = flag (negative m.point) ∷ magnitude m.point ∷ m.id ∷ length m.s ∷ (m.s ++ m.t)

abbrev read_text : List ℕ → MarshalFriendlyShare
read_text (sign ∷ size ∷ id ∷ n ∷ rest) = record {
  s = take_first n rest;
  t = drop_first n rest;
  point = integer (sign == 1) size;
  id = id;
}
read_text _ = record { s = []; t = []; point = pos 0; id = 0 }

read_text-write_share : (m : MarshalFriendlyShare) → read_text (write_share m) ≡ m
read_text-write_share m =
    rw
      (
        flag_self (negative m.point),
        integer_self m.point,
        take_first-append (length m.s) m.s m.t refl,
        drop_first-append (length m.s) m.s m.t refl,
      )
      refl

abbrev pub platform : Platform
platform = record {
  share_hash = λ l. l.id ∷ [];
  sign = λ h. h;
  verify = λ key h sign. same_text h sign;
  decrypt_key = λ c. some c;
  key_size = λ n. n == 2;
  nonce_size = 1;
  open_box = λ key nonce c. some c;
  read_marshal_share = read_text;
  read_share = λ msg. none;
  range_order = λ l. l;
  shuffle = λ l. l;
}

abbrev pub sealing : Sealing
sealing = record {
  key = λ i. i ∷ 9 ∷ [];
  nonce = λ i. i ∷ [];
  marshal = write_share;
  seal = λ key nonce msg. msg;
  encrypt = λ public key. some key;
}

abbrev pub server : ℕ → IpStruct
server i = record { ip = i ∷ []; port = 80 ∷ []; rpc_port = 81 ∷ []; public_key = i ∷ [] }

pub opener : IsOpener platform sealing (server 1)
opener = record {
  rsa = λ key enc h. sym h;
  gcm = λ key nonce msg. refl;
  json = read_text-write_share;
  sizes = λ i. refl;
  nonces = λ i. refl;
}

abbrev pub dealt : Share
dealt = record { s = pos 7; t = pos 7; point = pos 2; id = 7 }

abbrev pub known : ZeroKnowledge
known = record { a0 = pos 4; e0 = pos 3; z0 = pos 6; a1 = pos 12; e1 = pos 4; z1 = pos 2 }

pub verified : verify_share o a dealt (pos 3 ∷ pos 1 ∷ []) (some known) ≡ some true
unfolding digital_election_system.Sharing.verify_share digital_election_system.Commitment.bc
    digital_election_system.Sharing.proof_loop digital_election_system.Number.power
    digital_election_system.Common.◌*ℤ◌ digital_election_system.Sharing.verify_knowledge
    digital_election_system.Sharing.first digital_election_system.Knowledge.verify01
    digital_election_system.Knowledge.random_oracle digital_election_system.Knowledge.accepting
    digital_election_system.Knowledge.equal digital_election_system.Knowledge.bytes
    digital_election_system.Knowledge.to_bytes digital_election_system.Knowledge.of_bytes
    digital_election_system.Number.emod digital_election_system.Number.exp
    digital_election_system.Number.find_inverse digital_election_system.Number.mod_inverse
    digital_election_system.Number.xor
verified = refl

abbrev pub box : EncryptedShare
box = record {
  point = pos 1;
  cipher_text = 1 ∷ 0 ∷ 2 ∷ 7 ∷ 1 ∷ 55 ∷ 55 ∷ [];
  encrypted_share_key = 1 ∷ 9 ∷ [];
}

decrypt_share-encrypt_share_example :
    decrypt_share platform o a box (pos 3 ∷ pos 1 ∷ []) known ≡ done (dealt, true, 1 ∷ 9 ∷ [])
unfolding digital_election_system.Client.encrypt_share digital_election_system.Client.check_bytesize
    digital_election_system.Framework.share_for_network
    digital_election_system.Framework.Decimal.string
    digital_election_system.Framework.Decimal.show_number
    digital_election_system.Framework.Decimal.show_digits
decrypt_share-encrypt_share_example =
    decrypt_share-encrypt_share platform o a sealing (server 0 ∷ server 1 ∷ []) (server 1) 1 dealt
      box (pos 3 ∷ pos 1 ∷ []) known true opener refl refl verified

abbrev pub boxes : EncryptedShareListMarshalFriendly
boxes = record {
  id = 7;
  proof = (51 ∷ []) ∷ (49 ∷ []) ∷ [];
  knowledge = record {
    a0 = 52 ∷ [];
    e0 = 51 ∷ [];
    z0 = 54 ∷ [];
    a1 = 49 ∷ 50 ∷ [];
    e1 = 52 ∷ [];
    z1 = 50 ∷ [];
  };
  enc_shares = box ∷ [];
}

abbrev pub signature : Signature
signature = record { sender = pos 0; sign = 7 ∷ []; sent = false }

abbrev pub signed : SignedEncryptedShare
signed = record { signatures = signature ∷ []; encrypted_shares = boxes }

abbrev pub entry : Bool → Bool → List ChallengeVoteStruct → EncryptedShareSeenFrom
entry delivered locked challenges = record {
  shares_received = some ((7 ∷ [], signed) ∷ []);
  signatures_seen_from = some ((pos 0, true) ∷ []);
  delivered = delivered;
  invalidated = false;
  challenges = challenges;
  locked = locked;
}

abbrev pub network : EncryptedShareSeenFrom → List Event → Network
network e observed = record {
  ip_list = server 0 ∷ server 1 ∷ [];
  received_shares = (7, e) ∷ [];
  observer = true;
  t = 1;
  server_id = pos 1;
  delayed = [];
  outbox = [];
  observed = observed;
}

abbrev pub told : List Event
told = new_share_arrived dealt (pos 3 ∷ pos 1 ∷ []) ∷ []

check_signatures-IsDelivery_example :
    (told ≡ [])
    ⊎ ((l : List (List ℕ × SignedEncryptedShare)) × ((entry false true []).shares_received ≡ some l)
        × Delivers platform o a
            (network (entry false true []) [])
            (network (entry true true []) told)
            7
            (entry false true [])
            l)
unfolding digital_election_system.Network.lookup_id digital_election_system.Network.store_id
    digital_election_system.Network.received digital_election_system.Network.lookup_hash
    digital_election_system.Network.seen digital_election_system.Network.lookup_sender
    digital_election_system.Network.same_text digital_election_system.Network.receive
    digital_election_system.Network.mark_seen digital_election_system.Network.lock
    digital_election_system.Network.unlock digital_election_system.Network.observe
    digital_election_system.Network.transform_encrypted_share_list
    digital_election_system.Network.Checking.check_signatures
    digital_election_system.Network.Checking.check_shares
    digital_election_system.Network.Challenges.enough
    digital_election_system.Network.Checking.decide_share
    digital_election_system.Network.Opening.decrypt_verify_share
    digital_election_system.Network.Opening.decrypt_own
    digital_election_system.Network.Opening.decrypt_share
    digital_election_system.Network.Opening.find_point
    digital_election_system.Network.Opening.take_first
    digital_election_system.Network.Opening.drop_first
    digital_election_system.Network.Checking.deliver
    digital_election_system.Network.Challenges.challenge_votes
    digital_election_system.Network.Challenges.challenge_vote
    digital_election_system.Network.Challenges.answer_challenge
    digital_election_system.Network.Challenges.open_challenge
    digital_election_system.Network.Handlers.find_new_signatures
    digital_election_system.Network.Handlers.has_sender
    digital_election_system.Network.Handlers.verify_signatures
    digital_election_system.Network.Handlers.server_at
    digital_election_system.Framework.string_arr_to_big_int_arr
    digital_election_system.Framework.transform_to_zero_knowledge
    digital_election_system.Framework.transform_to_share
    digital_election_system.Framework.Decimal.set_string
    digital_election_system.Framework.Decimal.read_number
    digital_election_system.Framework.Decimal.read_digits
    digital_election_system.Sharing.verify_share digital_election_system.Commitment.bc
    digital_election_system.Sharing.proof_loop digital_election_system.Number.power
    digital_election_system.Common.◌*ℤ◌ digital_election_system.Sharing.verify_knowledge
    digital_election_system.Sharing.first digital_election_system.Knowledge.verify01
    digital_election_system.Knowledge.random_oracle digital_election_system.Knowledge.accepting
    digital_election_system.Knowledge.equal digital_election_system.Knowledge.bytes
    digital_election_system.Knowledge.to_bytes digital_election_system.Knowledge.of_bytes
    digital_election_system.Number.emod digital_election_system.Number.exp
    digital_election_system.Number.find_inverse digital_election_system.Number.mod_inverse
    digital_election_system.Number.xor
check_signatures-IsDelivery_example =
    check_signatures-IsDelivery platform o a (network (entry false true []) [])
      (network (entry true true []) told) 7 (entry false true []) refl refl refl

abbrev complaint : ℤ → ChallengeVoteStruct
complaint k = record { id = 7; secret_key = 1 ∷ 9 ∷ []; hash = 7 ∷ []; sender = k }

receive_server_share-challenge_vote_example :
    receive_server_share platform o a (network (entry false true []) []) signed ≡ deadlocked
unfolding digital_election_system.Network.lookup_id digital_election_system.Network.store_id
    digital_election_system.Network.received digital_election_system.Network.lookup_hash
    digital_election_system.Network.seen digital_election_system.Network.lookup_sender
    digital_election_system.Network.same_text digital_election_system.Network.receive
    digital_election_system.Network.mark_seen digital_election_system.Network.lock
    digital_election_system.Network.unlock digital_election_system.Network.observe
    digital_election_system.Network.transform_encrypted_share_list
    digital_election_system.Network.Checking.check_signatures
    digital_election_system.Network.Checking.check_shares
    digital_election_system.Network.Challenges.enough
    digital_election_system.Network.Checking.decide_share
    digital_election_system.Network.Opening.decrypt_verify_share
    digital_election_system.Network.Opening.decrypt_own
    digital_election_system.Network.Opening.decrypt_share
    digital_election_system.Network.Opening.find_point
    digital_election_system.Network.Opening.take_first
    digital_election_system.Network.Opening.drop_first
    digital_election_system.Network.Checking.deliver
    digital_election_system.Network.Challenges.challenge_votes
    digital_election_system.Network.Challenges.challenge_vote
    digital_election_system.Network.Challenges.answer_challenge
    digital_election_system.Network.Challenges.open_challenge
    digital_election_system.Network.Handlers.find_new_signatures
    digital_election_system.Network.Handlers.has_sender
    digital_election_system.Network.Handlers.verify_signatures
    digital_election_system.Network.Handlers.server_at digital_election_system.Knowledge.equal
receive_server_share-challenge_vote_example =
    receive_server_share-challenge_vote platform o a (network (entry false false []) [])
      (network (entry false true []) []) (complaint (pos 0)) (entry false false []) signed signed
      refl refl refl refl refl refl

decide_share-challenge_vote_example :
    decide_share platform o a
      (network (entry false true (complaint (pos 1) ∷ [])) [])
      7
      (entry false true (complaint (pos 1) ∷ []))
      signed
    ≡ deadlocked
unfolding digital_election_system.Network.lookup_id digital_election_system.Network.store_id
    digital_election_system.Network.received digital_election_system.Network.lookup_hash
    digital_election_system.Network.seen digital_election_system.Network.lookup_sender
    digital_election_system.Network.same_text digital_election_system.Network.receive
    digital_election_system.Network.mark_seen digital_election_system.Network.lock
    digital_election_system.Network.unlock digital_election_system.Network.observe
    digital_election_system.Network.transform_encrypted_share_list
    digital_election_system.Network.Checking.check_signatures
    digital_election_system.Network.Checking.check_shares
    digital_election_system.Network.Challenges.enough
    digital_election_system.Network.Checking.decide_share
    digital_election_system.Network.Opening.decrypt_verify_share
    digital_election_system.Network.Opening.decrypt_own
    digital_election_system.Network.Opening.decrypt_share
    digital_election_system.Network.Opening.find_point
    digital_election_system.Network.Opening.take_first
    digital_election_system.Network.Opening.drop_first
    digital_election_system.Network.Checking.deliver
    digital_election_system.Network.Challenges.challenge_votes
    digital_election_system.Network.Challenges.challenge_vote
    digital_election_system.Network.Challenges.answer_challenge
    digital_election_system.Network.Challenges.open_challenge
    digital_election_system.Network.Handlers.find_new_signatures
    digital_election_system.Network.Handlers.has_sender
    digital_election_system.Network.Handlers.verify_signatures
    digital_election_system.Network.Handlers.server_at
    digital_election_system.Framework.string_arr_to_big_int_arr
    digital_election_system.Framework.transform_to_zero_knowledge
    digital_election_system.Framework.transform_to_share
    digital_election_system.Framework.Decimal.set_string
    digital_election_system.Framework.Decimal.read_number
    digital_election_system.Framework.Decimal.read_digits
    digital_election_system.Sharing.verify_share digital_election_system.Commitment.bc
    digital_election_system.Sharing.proof_loop digital_election_system.Number.power
    digital_election_system.Common.◌*ℤ◌ digital_election_system.Sharing.verify_knowledge
    digital_election_system.Sharing.first digital_election_system.Knowledge.verify01
    digital_election_system.Knowledge.random_oracle digital_election_system.Knowledge.accepting
    digital_election_system.Knowledge.equal digital_election_system.Knowledge.bytes
    digital_election_system.Knowledge.to_bytes digital_election_system.Knowledge.of_bytes
    digital_election_system.Number.emod digital_election_system.Number.exp
    digital_election_system.Number.find_inverse digital_election_system.Number.mod_inverse
    digital_election_system.Number.xor
decide_share-challenge_vote_example =
    decide_share-challenge_vote platform o a
      (network (entry false true (complaint (pos 1) ∷ [])) [])
      (entry false true (complaint (pos 1) ∷ [])) signed (complaint (pos 1)) [] dealt (1 ∷ 9 ∷ [])
      refl refl refl refl refl

abbrev pub unsigned : SignedEncryptedShare
unsigned = record { signatures = []; encrypted_shares = boxes }

abbrev pub unseen : EncryptedShareSeenFrom
unseen = record (entry false true []) { signatures_seen_from = some [] }

verify_signatures-Unique_example :
    Unique (signature ∷ [])
    × All (IsCounted platform (network unseen []) (7 ∷ []) (entry false true [])) (signature ∷ [])
unfolding digital_election_system.Network.lookup_id digital_election_system.Network.store_id
    digital_election_system.Network.received digital_election_system.Network.lookup_hash
    digital_election_system.Network.seen digital_election_system.Network.lookup_sender
    digital_election_system.Network.same_text digital_election_system.Network.receive
    digital_election_system.Network.mark_seen digital_election_system.Network.lock
    digital_election_system.Network.unlock digital_election_system.Network.observe
    digital_election_system.Network.transform_encrypted_share_list
    digital_election_system.Network.Checking.check_signatures
    digital_election_system.Network.Checking.check_shares
    digital_election_system.Network.Challenges.enough
    digital_election_system.Network.Checking.decide_share
    digital_election_system.Network.Opening.decrypt_verify_share
    digital_election_system.Network.Opening.decrypt_own
    digital_election_system.Network.Opening.decrypt_share
    digital_election_system.Network.Opening.find_point
    digital_election_system.Network.Opening.take_first
    digital_election_system.Network.Opening.drop_first
    digital_election_system.Network.Checking.deliver
    digital_election_system.Network.Challenges.challenge_votes
    digital_election_system.Network.Challenges.challenge_vote
    digital_election_system.Network.Challenges.answer_challenge
    digital_election_system.Network.Challenges.open_challenge
    digital_election_system.Network.Handlers.find_new_signatures
    digital_election_system.Network.Handlers.has_sender
    digital_election_system.Network.Handlers.verify_signatures
    digital_election_system.Network.Handlers.server_at digital_election_system.Knowledge.equal
    digital_election_system.Network.Handlers.Signatures.Unique
verify_signatures-Unique_example =
    verify_signatures-Unique platform o a (network unseen []) (7 ∷ []) (signature ∷ signature ∷ [])
      unsigned signed unseen (entry false true []) false true tt tt refl

find_new_signatures_lem_example :
    Memᴰ signature (find_new_signatures (signature ∷ []) [] unseen) ↔ (
      Memᴰ signature (signature ∷ [])
      × ¬ Marked (pos 0) unseen
      × All (λ (w : Signature). pos 0 ≢ w.sender) [])
find_new_signatures_lem_example = find_new_signatures_lem (signature ∷ []) [] unseen signature
