-- ===== src/Network/Start.antt =====
-- server/src/NetworkHTTPSImpl.go: how an election starts. Servers join; the one that made the network
-- ends this phase with a first sharing of 0, sorts the servers and sends each of them its share; each
-- sorts its own list, finds its index and reads the parameters. Console, listeners and key generation are
-- outside: the address of the server, the drawn numbers and the id of the session are arguments.
pub mod Agreement
use digital_election_system.Common.{
  ℕ, zero, suc, ◌+◌, Bool, true, false, Option, none, some, ◌>>=◌, List, [], ◌∷◌, ◌++◌, length, ℤ,
  pos, negsuc, if◌then◌else◌, ltb, leb, ◌==◌, ◌&&◌, not,
}
use digital_election_system.Framework.{
  Share, MarshalFriendlyShare, ZeroKnowledge, ZeroKnowledgeMarshalFriendly, share_for_network,
  transform_to_share, knowledge_for_network, transform_to_zero_knowledge, big_int_arr_to_str_arr,
  string_arr_to_big_int_arr,
}
use digital_election_system.Framework.Decimal.{string, set_string}
use digital_election_system.Commitment.{ActiveSecretSharing, calculate_t, new_active_secret_sharing}
use digital_election_system.Knowledge.{Oracle}
use digital_election_system.Sharing.{Draws, secret_gen}
use digital_election_system.Network.{IpStruct, same_text}

pub record PhaseTwoStartStruct : Type 0 where
  pub parties : ℕ
  pub prime_p : List ℕ
  pub prime_q : List ℕ
  pub proof : List (List ℕ)
  pub knowledge : ZeroKnowledgeMarshalFriendly
  pub secret : MarshalFriendlyShare
  pub session_id : ℕ

pub record ClientInfo : Type 0 where
  pub prime_p : List ℕ
  pub prime_q : List ℕ
  pub ip_list : List IpStruct
  pub session_id : ℕ

-- The order of Go's strings.
unfoldable pub text_before : List ℕ → List ℕ → Bool
text_before [] [] = false
text_before [] (y ∷ ys) = true
text_before (x ∷ xs) [] = false
text_before (x ∷ xs) (y ∷ ys) = if x == y then text_before xs ys else ltb x y

-- The comparison of sortIpStruct: it calls a server less than itself.
unfoldable pub ip_before : IpStruct → IpStruct → Bool
ip_before a b =
    if same_text a.ip b.ip
    then (if text_before b.port a.port then false else true)
    else text_before a.ip b.ip

-- sort.Slice, as an argument.
abbrev pub Sort : Type 0
Sort = (IpStruct → IpStruct → Bool) → List IpStruct → List IpStruct

unfoldable pub sort_ip_struct : Sort → List IpStruct → List IpStruct
sort_ip_struct sort ips = sort ip_before ips

-- ParticipateInNetwork: the answer to the join is added after the own address.
unfoldable pub participate_in_network :
    List IpStruct → Option (List IpStruct) → Option (List IpStruct)
participate_in_network ip_list none = none
participate_in_network ip_list (some ips) = some (ip_list ++ ips)

-- The message of SendStartPhaseTwoSignal for one server.
unfoldable pub phase_two_message :
    ℕ → ℤ → ℤ → List ℤ → ZeroKnowledge → ℕ → Share → PhaseTwoStartStruct
phase_two_message parties prime_p prime_q proof knowledge id secret = record {
  parties = parties;
  prime_p = string prime_p;
  prime_q = string prime_q;
  proof = big_int_arr_to_str_arr proof;
  knowledge = knowledge_for_network knowledge;
  secret = share_for_network secret;
  session_id = id;
}

-- SendStartPhaseTwoSignal: the i-th server gets the i-th share; too few shares panic.
unfoldable pub send_start_phase_two_signal :
    (Share → PhaseTwoStartStruct)
    → List IpStruct
    → List Share
    → Option (List (IpStruct × PhaseTwoStartStruct))
send_start_phase_two_signal message [] secrets = some []
send_start_phase_two_signal message (v ∷ ips) [] = none
send_start_phase_two_signal message (v ∷ ips) (s ∷ secrets) = do
  rest ← send_start_phase_two_signal message ips secrets
  some ((v, message s) ∷ rest)

-- A text that is no number gives a nil pointer, whose use panics.
unfoldable pub read_prime : List ℕ → Option ℤ
read_prime t = set_string t

-- The branch of StartNetwork for the server that made the network, with the texts of the primes.
unfoldable pub open_network :
    Oracle
    → Sort
    → List ℕ
    → List ℕ
    → Draws
    → ℕ
    → List IpStruct
    → Option (List (IpStruct × PhaseTwoStartStruct))
open_network o sort p_text q_text d session ip_list = do
  prime_p ← read_prime p_text
  prime_q ← read_prime q_text
  ss ← new_active_secret_sharing (length ip_list) (string prime_p ∷ string prime_q ∷ [])
  (start_shares, proof, knowledge) ← secret_gen o ss (pos 0) d
  send_start_phase_two_signal
      (phase_two_message (length ip_list) prime_p prime_q proof knowledge session)
      (sort_ip_struct sort ip_list) start_shares

-- The loop of StartNetwork for the index of the own address: the last match counts.
unfoldable pub find_self : IpStruct → ℕ → List IpStruct → Option ℕ → Option ℕ
find_self own i [] server_id = server_id
find_self own i (v ∷ ips) server_id =
    find_self own (i + 1) ips
      (if same_text v.port own.port && same_text v.ip own.ip then some i else server_id)

-- What StartNetwork returns, and what it sets in the struct.
pub record Started : Type 0 where
  pub parties : ℕ
  pub t : ℕ
  pub ss : ActiveSecretSharing
  pub share : Share
  pub proof : List ℤ
  pub knowledge : ZeroKnowledge
  pub prime_p : ℤ
  pub prime_q : ℤ
  pub session_id : ℕ
  pub server_id : ℕ

-- The end of StartNetwork, from the message on; an own address that is not in the list panics.
unfoldable pub start_network : IpStruct → List IpStruct → PhaseTwoStartStruct → Option Started
start_network own ip_list m = do
  t ← calculate_t (length ip_list)
  prime_p ← read_prime m.prime_p
  prime_q ← read_prime m.prime_q
  ss ← new_active_secret_sharing (length ip_list) (string prime_p ∷ string prime_q ∷ [])
  server_id ← find_self own 0 ip_list none
  proof ← string_arr_to_big_int_arr m.proof
  share ← transform_to_share m.secret
  knowledge ← transform_to_zero_knowledge m.knowledge
  some (record {
    parties = length ip_list;
    t = t;
    ss = ss;
    share = share;
    proof = proof;
    knowledge = knowledge;
    prime_p = prime_p;
    prime_q = prime_q;
    session_id = m.session_id;
    server_id = server_id;
  })

-- receiveStartPhaseTwoSignal sorts the list, and hands the message to StartNetwork.
unfoldable pub receive_start_phase_two_signal :
    Sort → IpStruct → List IpStruct → PhaseTwoStartStruct → Option Started
receive_start_phase_two_signal sort own ip_list m =
    start_network own (sort_ip_struct sort ip_list) m

unfoldable pub client_join_network : List IpStruct → Started → ClientInfo
client_join_network ip_list s = record {
  prime_p = string s.prime_p;
  prime_q = string s.prime_q;
  ip_list = ip_list;
  session_id = s.session_id;
}
