-- ===== src/Network/Start/Agreement.antt =====
-- server/src/NetworkHTTPSImpl.go: the message that opens an election, and the server that reads it.
use digital_election_system.Common.{
  ℕ, zero, suc, ◌+◌, ◌≡◌, refl, sym, ap, ◌∙◌, subst, Bool, true, false, Option, none, some, List,
  [], ◌∷◌, length, ℤ, pos, ◌&&◌, get_elem?, arith, some_inj, bind-some,
}
use digital_election_system.Framework.{Share, ZeroKnowledge}
use digital_election_system.Framework.Decimal.{string, set_string-string}
use digital_election_system.Framework.RoundTrip.{
  transform_to_share-share_for_network, transform_to_zero_knowledge-knowledge_for_network,
  string_arr_to_big_int_arr-big_int_arr_to_str_arr,
}
use digital_election_system.Commitment.{ActiveSecretSharing, calculate_t, new_active_secret_sharing}
use digital_election_system.Knowledge.{Oracle}
use digital_election_system.Sharing.{Draws, secret_gen}
use digital_election_system.Network.{IpStruct, same_text}
use digital_election_system.Network.Connections.Reuse.{same_text_self}
use digital_election_system.Network.Start.{
  Sort, sort_ip_struct, open_network, receive_start_phase_two_signal, PhaseTwoStartStruct,
  phase_two_message, send_start_phase_two_signal, read_prime, find_self, Started, start_network,
}

-- The test of StartNetwork for an address.
abbrev pub is_at : IpStruct → IpStruct → Bool
is_at own v = same_text v.port own.port && same_text v.ip own.ip

-- No other server of the list has the address.
unfoldable pub NotIn : IpStruct → List IpStruct → Type 0
NotIn own [] = Unit
NotIn own (v ∷ ips) = (is_at own v ≡ false) × NotIn own ips

-- The addresses differ.
unfoldable pub DistinctAddresses : List IpStruct → Type 0
DistinctAddresses [] = Unit
DistinctAddresses (v ∷ ips) = NotIn v ips × DistinctAddresses ips

find_self-NotIn :
    (own : IpStruct) (i : ℕ) (ips : List IpStruct) (r : Option ℕ)
    → NotIn own ips
    → find_self own i ips r ≡ r
unfolding find_self NotIn
find_self-NotIn own i [] r h = refl
find_self-NotIn own i (v ∷ ips) r (other, h) =
    rw (find_self, other) (find_self-NotIn own (i + 1) ips r h)

is_at_self : (own : IpStruct) → is_at own own ≡ true
is_at_self own = rw (same_text_self own.port, same_text_self own.ip) refl

find_self-get_elem? :
    (own : IpStruct) (j k i : ℕ) (ips : List IpStruct) (r : Option ℕ)
    → j + k ≡ i
    → DistinctAddresses ips
    → get_elem? ips k ≡ some own
    → find_self own j ips r ≡ some i
unfolding find_self DistinctAddresses
find_self-get_elem? own j k i [] r at_i h e = cc
find_self-get_elem? own j zero i (v ∷ ips) r at_i (new, h) e =
    let same = some_inj e in
    subst (λ (w : IpStruct). find_self own j (w ∷ ips) r ≡ some i) (sym same)
      (rw (find_self, is_at_self own)
        (find_self-NotIn own (j + 1) ips (some j) (subst (λ (w : IpStruct). NotIn w ips) same new)
          ∙ ap some (omega (arith, at_i))))
find_self-get_elem? own j (suc k) i (v ∷ ips) r at_i (new, h) e =
    find_self-get_elem? own (j + 1) k i ips _ (omega (arith, at_i)) h e

-- The i-th message goes to the i-th server with the i-th share.
send_start_phase_two_signal-get_elem? :
    (message : Share → PhaseTwoStartStruct) (ips : List IpStruct) (secrets : List Share) (i : ℕ)
    {sent : List (IpStruct × PhaseTwoStartStruct)} {ip : IpStruct} {m : PhaseTwoStartStruct}
    → send_start_phase_two_signal message ips secrets ≡ some sent
    → get_elem? sent i ≡ some (ip, m)
    → (s : Share) × (get_elem? ips i ≡ some ip) × (get_elem? secrets i ≡ some s) × (m ≡ message s)
unfolding send_start_phase_two_signal
send_start_phase_two_signal-get_elem? message [] secrets i {ip = ip} {m = m} h e =
    let bad : ◌≡◌ {A = Option (IpStruct × PhaseTwoStartStruct)} none (some (ip, m)) =
      subst (λ (l : List (IpStruct × PhaseTwoStartStruct)). get_elem? l i ≡ some (ip, m))
        (sym (some_inj h)) e in
    cc
send_start_phase_two_signal-get_elem? message (v ∷ ips) [] i h e = cc
send_start_phase_two_signal-get_elem? message (v ∷ ips) (s ∷ secrets) zero {ip = ip} {m = m} h e =
    let (rest, _, h1) = bind-some (send_start_phase_two_signal message ips secrets) h in
    let same : ◌≡◌ {A = IpStruct × PhaseTwoStartStruct} (v, message s) (ip, m) = some_inj (
      subst (λ (l : List (IpStruct × PhaseTwoStartStruct)). get_elem? l zero ≡ some (ip, m))
        (sym (some_inj h1)) e) in
    (
      s,
      ap (λ (r : IpStruct × PhaseTwoStartStruct). some r.0) same,
      refl,
      ap (λ (r : IpStruct × PhaseTwoStartStruct). r.1) (sym same),
    )
send_start_phase_two_signal-get_elem? message (v ∷ ips) (s ∷ secrets) (suc i) {ip = ip} {m = m} h
      e =
    let (rest, others, h1) = bind-some (send_start_phase_two_signal message ips secrets) h in
    send_start_phase_two_signal-get_elem? message ips secrets i others (
      subst (λ (l : List (IpStruct × PhaseTwoStartStruct)). get_elem? l (suc i) ≡ some (ip, m))
        (sym (some_inj h1)) e)

start_network-phase_two_message :
    (own : IpStruct) (ips : List IpStruct) (i t : ℕ) (p q : ℤ) (proof : List ℤ) (zk : ZeroKnowledge)
    (id parties : ℕ) (s : Share) (ss : ActiveSecretSharing)
    → DistinctAddresses ips
    → get_elem? ips i ≡ some own
    → calculate_t (length ips) ≡ some t
    → new_active_secret_sharing (length ips) (string p ∷ string q ∷ []) ≡ some ss
    → start_network own ips (phase_two_message parties p q proof zk id s)
      ≡ some (record {
        parties = length ips;
        t = t;
        ss = ss;
        share = s;
        proof = proof;
        knowledge = zk;
        prime_p = p;
        prime_q = q;
        session_id = id;
        server_id = i;
      })
unfolding start_network phase_two_message read_prime
start_network-phase_two_message own ips i t p q proof zk id parties s ss distinct at_i threshold
      made =
    rw
      (
        start_network,
        phase_two_message,
        threshold,
        read_prime,
        set_string-string p,
        set_string-string q,
        made,
        find_self-get_elem? own 0 i i ips none (omega arith) distinct at_i,
        string_arr_to_big_int_arr-big_int_arr_to_str_arr proof,
        transform_to_share-share_for_network s,
        transform_to_zero_knowledge-knowledge_for_network zk,
      )
      refl

threshold_of :
    (parties : ℕ) (p q : List ℕ) {ss : ActiveSecretSharing}
    → new_active_secret_sharing parties (p ∷ q ∷ []) ≡ some ss
    → (t : ℕ) × (calculate_t parties ≡ some t)
unfolding new_active_secret_sharing
threshold_of parties p q h = let (t, found, _) = bind-some (calculate_t parties) h in (t, found)

-- What a started server knows: its index in the sorted list, the share with this index and the
-- parameters of the sharing.
pub record IsStarted (o : Oracle) (d : Draws) (parties i session : ℕ) (started : Started)
    : Type 0 where
  pub shares : List Share
  pub counted : started.parties ≡ parties
  pub indexed : started.server_id ≡ i
  pub in_session : started.session_id ≡ session
  pub parameters :
      new_active_secret_sharing parties (string started.prime_p ∷ string started.prime_q ∷ [])
      ≡ some started.ss
  pub dealt : secret_gen o started.ss (pos 0) d ≡ some (shares, started.proof, started.knowledge)
  pub own_share : get_elem? shares i ≡ some started.share

-- The server that the opening of the network addresses as the i-th starts, if its list sorts to that of
-- the opener, whose sort keeps the number of servers, and their addresses differ. It finds i as its index,
-- holds the i-th share of one sharing of 0, and the primes, the proof and the parameters of that sharing.
pub receive_start_phase_two_signal-open_network :
    (o : Oracle) (sort : Sort) (p_text q_text : List ℕ) (d : Draws) (session i : ℕ)
    (ip_list own_list : List IpStruct) (sent : List (IpStruct × PhaseTwoStartStruct))
    (own : IpStruct) (m : PhaseTwoStartStruct)
    → length (sort_ip_struct sort ip_list) ≡ length ip_list
    → sort_ip_struct sort own_list ≡ sort_ip_struct sort ip_list
    → DistinctAddresses (sort_ip_struct sort ip_list)
    → open_network o sort p_text q_text d session ip_list ≡ some sent
    → get_elem? sent i ≡ some (own, m)
    → (started : Started) × (receive_start_phase_two_signal sort own own_list m ≡ some started)
      × (get_elem? (sort_ip_struct sort ip_list) i ≡ some own)
      × IsStarted o d (length ip_list) i session started
unfolding open_network receive_start_phase_two_signal
receive_start_phase_two_signal-open_network o sort p_text q_text d session i ip_list own_list sent
      own m long same distinct opened is_i =
    let (p, _, h1) = bind-some (read_prime p_text) opened in
    let (q, _, h2) = bind-some (read_prime q_text) h1 in
    let (ss, made, h3) =
      bind-some (new_active_secret_sharing (length ip_list) (string p ∷ string q ∷ [])) h2 in
    let ((shares, proof, zk), dealt, h4) = bind-some (secret_gen o ss (pos 0) d) h3 in
    let sorted = sort_ip_struct sort ip_list in
    let (s, at_i, share_i, message) =
      send_start_phase_two_signal-get_elem?
        (phase_two_message (length ip_list) p q proof zk session) sorted shares i h4 is_i in
    let (t, threshold) = threshold_of (length ip_list) (string p) (string q) made in
    let went =
      start_network-phase_two_message own sorted i t p q proof zk session (length ip_list) s ss
        distinct at_i (ap calculate_t long ∙ threshold)
        (ap (λ k. new_active_secret_sharing k (string p ∷ string q ∷ [])) long ∙ made) in
    (
      _,
      ap (λ l. start_network own l m) same ∙ ap (start_network own sorted) message ∙ went,
      at_i,
      record {
        shares = shares;
        counted = long;
        indexed = refl;
        in_session = refl;
        parameters = made;
        dealt = dealt;
        own_share = share_i;
      },
    )
