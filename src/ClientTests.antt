-- ===== src/ClientTests.antt =====
-- The theorems on the client, the start of the network and runs of the handlers at concrete inputs: four
-- servers, threshold 1, in the group of order 11 modulo 23.
use digital_election_system.Common.{
  ℕ, zero, suc, ◌+◌, ◌*◌, ◌<◌, ◌≡◌, refl, Bool, true, false, Option, none, some, List, [], ◌∷◌,
  ◌++◌, arith, length, ℤ, pos, negsuc, get_elem?,
}
use digital_election_system.Framework.{Share, ZeroKnowledge}
use digital_election_system.Commitment.{ActiveSecretSharing, new_active_secret_sharing}
use digital_election_system.Commitment.Setup.{IsGroup}
use digital_election_system.Knowledge.{Oracle}
use digital_election_system.Sharing.{Draws, secret_gen, verify_share}
use digital_election_system.Network.{
  done, panicked, EncryptedShare, EncryptedShareListMarshalFriendly, Signature,
  SignedEncryptedShare, IpStruct, Network,
}
use digital_election_system.Network.Opening.{decrypt_verify_share}
use digital_election_system.Network.Handlers.{receive_server_share}
use digital_election_system.Network.Handlers.Panics.{above, receive_server_share-panicked}
use digital_election_system.Network.Start.{
  Started, PhaseTwoStartStruct, ClientInfo, client_join_network, open_network,
  receive_start_phase_two_signal,
}
use digital_election_system.Network.Start.Agreement.{
  IsStarted, receive_start_phase_two_signal-open_network,
}
use digital_election_system.Client.{Client, Sealing, generate_shares}
use digital_election_system.Client.Voting.{decrypt_verify_share-generate_shares}
use digital_election_system.Client.Session.{Voter, make_client, cast_all, collect_votes}
use digital_election_system.Client.Session.Freshness.{
  AreFresh, AreSent, collect_votes-AreFresh, make_client-client_join_network,
}
use digital_election_system.Client.Session.Collecting.{
  Votes, Collected, new_ids, collect_votes-Collected,
}
use digital_election_system.Client.Session.Counting.{Counted, cast_all-Counted}
use digital_election_system.Client.Session.Dealing.{CanSeal, IsUsable}
use mathlib.Core.List.Permᴰ
use digital_election_system.NetworkTests.{
  a, o, platform, sealing, server, opener, network, signed, unseen, signature, boxes, entry, told,
}

group : IsGroup a
group = record {
  p_big = omega arith;
  q_big = omega arith;
  g_order = record { same = refl };
  h_order = record { same = refl };
}

abbrev d : ℕ → Draws
d id = record {
  g0 = 5;
  f_coef = λ i. i + 2;
  g_coef = λ i. i;
  vote_id = id;
  r = 4;
  zs = 1 ∷ 6 ∷ [];
  e = 3;
}

abbrev servers : List IpStruct
servers = server 0 ∷ server 1 ∷ server 2 ∷ server 3 ∷ []

abbrev client : Client
client = record { ip_list = servers; vote_amount = pos 0; vote_value = pos 0 }

abbrev message : ℕ → List ℕ → ℕ → PhaseTwoStartStruct
message s t x = record {
  parties = 4;
  prime_p = 50 ∷ 51 ∷ [];
  prime_q = 49 ∷ 49 ∷ [];
  proof = (49 ∷ 51 ∷ []) ∷ (49 ∷ []) ∷ [];
  knowledge = record {
    a0 = 49 ∷ 50 ∷ [];
    e0 = 52 ∷ [];
    z0 = 50 ∷ [];
    a1 = 51 ∷ [];
    e1 = 51 ∷ [];
    z1 = 54 ∷ [];
  };
  secret = record { s = t; t = s ∷ []; point = pos x; id = 7 };
  session_id = 5;
}

abbrev sent : List (IpStruct × PhaseTwoStartStruct)
sent =
    (server 0, message 54 (51 ∷ []) 1)
    ∷ (server 1, message 55 (54 ∷ []) 2)
    ∷ (server 2, message 56 (57 ∷ []) 3)
    ∷ (server 3, message 57 (49 ∷ []) 4)
    ∷ []

receive_start_phase_two_signal-open_network_example :
    (started : Started) × (receive_start_phase_two_signal
        (λ less l. l)
        (server 2)
        servers
        (message 56 (57 ∷ []) 3)
      ≡ some started)
    × (get_elem? servers 2 ≡ some (server 2))
    × IsStarted o (d 7) 4 2 5 started
unfolding digital_election_system.Framework.Decimal.set_string
    digital_election_system.Framework.Decimal.read_number
    digital_election_system.Framework.Decimal.read_digits
    digital_election_system.Framework.Decimal.string
    digital_election_system.Framework.Decimal.show_number
    digital_election_system.Framework.Decimal.show_digits secret_gen
    digital_election_system.Sharing.commit_all digital_election_system.Commitment.bc
    digital_election_system.Sharing.coefficients digital_election_system.Sharing.first
    digital_election_system.Knowledge.create_zero_knowledge
    digital_election_system.Knowledge.simulate_zero_knowledge
    digital_election_system.Knowledge.simulated_power
    digital_election_system.Knowledge.random_oracle digital_election_system.Knowledge.bytes
    digital_election_system.Knowledge.to_bytes digital_election_system.Knowledge.of_bytes
    digital_election_system.Knowledge.equal digital_election_system.Knowledge.invert_in_place
    digital_election_system.Sharing.deal digital_election_system.Sharing.polynomial
    digital_election_system.Sharing.polynomial_loop digital_election_system.Number.xor
    digital_election_system.Number.exp digital_election_system.Number.emod
    digital_election_system.Number.find_inverse digital_election_system.Number.mod_inverse
    digital_election_system.Number.power digital_election_system.Common.◌*ℤ◌
    digital_election_system.Common.◌+ℤ◌ digital_election_system.Common.◌-ℤ◌
    digital_election_system.Framework.share_for_network
    digital_election_system.Framework.knowledge_for_network
    digital_election_system.Framework.big_int_arr_to_str_arr open_network new_active_secret_sharing
    digital_election_system.Network.Start.sort_ip_struct
    digital_election_system.Network.Start.Agreement.DistinctAddresses
    digital_election_system.Network.Start.Agreement.NotIn digital_election_system.Network.same_text
    digital_election_system.Network.Start.read_prime
    digital_election_system.Network.Start.phase_two_message
    digital_election_system.Network.Start.send_start_phase_two_signal
    digital_election_system.Commitment.natural digital_election_system.Commitment.calculate_t
    digital_election_system.Commitment.set_primes
    digital_election_system.Commitment.set_commitment_values
    digital_election_system.Commitment.commitment_loop
    digital_election_system.Commitment.set_commitment_check
receive_start_phase_two_signal-open_network_example =
    receive_start_phase_two_signal-open_network o (λ less l. l) (50 ∷ 51 ∷ []) (49 ∷ 49 ∷ []) (d 7)
      5 2 servers servers sent (server 2) (message 56 (57 ∷ []) 3) refl refl
      ((refl, (refl, (refl, tt))), ((refl, (refl, tt)), ((refl, tt), (tt, tt)))) refl refl

abbrev cipher : ℕ → List ℕ → EncryptedShare
cipher i text = record {
  point = pos i;
  cipher_text = i ∷ 0 ∷ (i + 1) ∷ text;
  encrypted_share_key = i ∷ 9 ∷ [];
}

abbrev ballot : ℕ → EncryptedShareListMarshalFriendly
ballot id = record boxes {
  id = id;
  enc_shares =
      cipher 0 (id ∷ 1 ∷ 52 ∷ 54 ∷ [])
      ∷ cipher 1 (id ∷ 1 ∷ 55 ∷ 55 ∷ [])
      ∷ cipher 2 (id ∷ 2 ∷ 49 ∷ 48 ∷ 56 ∷ [])
      ∷ cipher 3 (id ∷ 1 ∷ 50 ∷ 57 ∷ [])
      ∷ [];
}

abbrev after_vote : Client
after_vote = record { ip_list = servers; vote_amount = pos 1; vote_value = pos 1 }

made : generate_shares o a sealing (d 7) (pos 1) client ≡ some (ballot 7, after_vote)
unfolding digital_election_system.Framework.Decimal.set_string
    digital_election_system.Framework.Decimal.read_number
    digital_election_system.Framework.Decimal.read_digits
    digital_election_system.Framework.Decimal.string
    digital_election_system.Framework.Decimal.show_number
    digital_election_system.Framework.Decimal.show_digits secret_gen
    digital_election_system.Sharing.commit_all digital_election_system.Commitment.bc
    digital_election_system.Sharing.coefficients digital_election_system.Sharing.first
    digital_election_system.Knowledge.create_zero_knowledge
    digital_election_system.Knowledge.simulate_zero_knowledge
    digital_election_system.Knowledge.simulated_power
    digital_election_system.Knowledge.random_oracle digital_election_system.Knowledge.bytes
    digital_election_system.Knowledge.to_bytes digital_election_system.Knowledge.of_bytes
    digital_election_system.Knowledge.equal digital_election_system.Knowledge.invert_in_place
    digital_election_system.Sharing.deal digital_election_system.Sharing.polynomial
    digital_election_system.Sharing.polynomial_loop digital_election_system.Number.xor
    digital_election_system.Number.exp digital_election_system.Number.emod
    digital_election_system.Number.find_inverse digital_election_system.Number.mod_inverse
    digital_election_system.Number.power digital_election_system.Common.◌*ℤ◌
    digital_election_system.Common.◌+ℤ◌ digital_election_system.Common.◌-ℤ◌
    digital_election_system.Framework.share_for_network
    digital_election_system.Framework.knowledge_for_network
    digital_election_system.Framework.big_int_arr_to_str_arr generate_shares
    digital_election_system.Client.encrypt_shares digital_election_system.Client.encrypt_share
    digital_election_system.Client.check_bytesize digital_election_system.Client.inc_vote_amount
    digital_election_system.Network.transform_to_marshal_friendly
made = refl

decrypt_verify_share-generate_shares_example :
    (shares : List Share) × (proof : List ℤ) × (zk : ZeroKnowledge) × (share : Share) × (secret_gen
        o a
        (pos 1)
        (d 7)
      ≡ some (shares, proof, zk))
    × (get_elem? shares 1 ≡ some share)
    × (verify_share o a share proof (some zk) ≡ some true)
    × (decrypt_verify_share platform o a
          (network unseen [])
          (record { signatures = signature ∷ []; encrypted_shares = ballot 7 })
        ≡ done (some share, 1 ∷ 9 ∷ []))
decrypt_verify_share-generate_shares_example =
    decrypt_verify_share-generate_shares platform o a sealing (d 7) client after_vote
      (network unseen []) 1 1 6 (server 1) (ballot 7) (signature ∷ []) group refl (omega arith)
      (omega arith) (omega arith) refl opener refl made

abbrev info : Started
info = record {
  parties = 4;
  t = 1;
  ss = a;
  share = record { s = pos 3; t = pos 6; point = pos 1; id = 7 };
  proof = pos 13 ∷ pos 1 ∷ [];
  knowledge = record { a0 = pos 12; e0 = pos 4; z0 = pos 2; a1 = pos 3; e1 = pos 3; z1 = pos 6 };
  prime_p = pos 23;
  prime_q = pos 11;
  session_id = 5;
  server_id = 0;
}

make_client-client_join_network_example :
    (v : Voter) × (make_client (client_join_network servers info) ≡ some v)
    × (v.ss ≡ a)
    × (v.client.ip_list ≡ servers)
    × (v.session_id ≡ 5)
unfolding new_active_secret_sharing digital_election_system.Framework.Decimal.set_string
    digital_election_system.Framework.Decimal.string
    digital_election_system.Framework.Decimal.show_number
    digital_election_system.Framework.Decimal.show_digits
    digital_election_system.Framework.Decimal.read_number
    digital_election_system.Framework.Decimal.read_digits digital_election_system.Commitment.natural
make_client-client_join_network_example =
    make_client-client_join_network servers info 23 11 refl refl refl

collect_votes-AreFresh_example :
    AreFresh [] (ballot 7 ∷ []) × AreSent (7 ∷ []) (ballot 7 ∷ []) × (length (ballot 7 ∷ []) ≡ 1)
unfolding digital_election_system.Framework.Decimal.set_string
    digital_election_system.Framework.Decimal.read_number
    digital_election_system.Framework.Decimal.read_digits
    digital_election_system.Framework.Decimal.string
    digital_election_system.Framework.Decimal.show_number
    digital_election_system.Framework.Decimal.show_digits secret_gen
    digital_election_system.Sharing.commit_all digital_election_system.Commitment.bc
    digital_election_system.Sharing.coefficients digital_election_system.Sharing.first
    digital_election_system.Knowledge.create_zero_knowledge
    digital_election_system.Knowledge.simulate_zero_knowledge
    digital_election_system.Knowledge.simulated_power
    digital_election_system.Knowledge.random_oracle digital_election_system.Knowledge.bytes
    digital_election_system.Knowledge.to_bytes digital_election_system.Knowledge.of_bytes
    digital_election_system.Knowledge.equal digital_election_system.Knowledge.invert_in_place
    digital_election_system.Sharing.deal digital_election_system.Sharing.polynomial
    digital_election_system.Sharing.polynomial_loop digital_election_system.Number.xor
    digital_election_system.Number.exp digital_election_system.Number.emod
    digital_election_system.Number.find_inverse digital_election_system.Number.mod_inverse
    digital_election_system.Number.power digital_election_system.Common.◌*ℤ◌
    digital_election_system.Common.◌+ℤ◌ digital_election_system.Common.◌-ℤ◌
    digital_election_system.Framework.share_for_network
    digital_election_system.Framework.knowledge_for_network
    digital_election_system.Framework.big_int_arr_to_str_arr generate_shares
    digital_election_system.Client.encrypt_shares digital_election_system.Client.encrypt_share
    digital_election_system.Client.check_bytesize digital_election_system.Client.inc_vote_amount
    digital_election_system.Network.transform_to_marshal_friendly collect_votes
    digital_election_system.Client.Session.generate_unused
    digital_election_system.Client.Session.is_sent
collect_votes-AreFresh_example =
    collect_votes-AreFresh o sealing a (1 ∷ []) client after_vote [] (7 ∷ []) (d 7 ∷ []) []
      (ballot 7 ∷ []) refl

abbrev voter : Voter
voter = record {
  client = client;
  prime_p = pos 23;
  prime_q = pos 11;
  session_id = 5;
  ss = a;
  arth = record { prime_p = 23; prime_q = 11 };
  ids_sent = [];
  posts = [];
}

can_seal : CanSeal a sealing servers
can_seal = record {
  group = group;
  oracle_on = omega arith;
  some_party = omega arith;
  servers = omega arith;
  encrypts = λ i ip at_i. (sealing.key i, refl);
}

d-IsUsable : (id : ℕ) → IsUsable o a (d id)
d-IsUsable id = record { z = 6; usable = refl }

cast_all-Counted_example :
    (v : Voter) × (cast_all o sealing (λ l. l) (1 ∷ []) voter (d 7 ∷ []) ≡ some (v, []))
    × Counted o sealing (1 ∷ []) (d 7 ∷ []) voter v
cast_all-Counted_example =
    cast_all-Counted o sealing (λ l. l) (λ l. Permᴰ.refl l) (1 ∷ []) (d 7 ∷ []) [] voter can_seal
      (omega arith, tt) (d-IsUsable 7, tt) refl

abbrev stranger : Signature
stranger = record { sender = pos 2; sign = 7 ∷ []; sent = false }

abbrev idle : Network
idle = record (network unseen []) { received_shares = [] }

receive_server_share-panicked_example :
    receive_server_share platform o a idle
      (record { signatures = stranger ∷ []; encrypted_shares = boxes })
    ≡ panicked
unfolding digital_election_system.Network.lookup_id
receive_server_share-panicked_example =
    receive_server_share-panicked platform o a idle
      (record { signatures = stranger ∷ []; encrypted_shares = boxes }) stranger [] refl
      (above (omega arith)) refl

abbrev taken : Network
taken = record (network (entry true false []) told) { delayed = (7, signed) ∷ [] }

-- The id 7 was sent before, so the first draw is made again.
collect_votes-Collected_example :
    (r : Votes) × (collect_votes o sealing a (1 ∷ []) client (7 ∷ []) (d 7 ∷ d 8 ∷ []) ≡ some r)
    × Collected (1 ∷ []) (7 ∷ []) (d 7 ∷ d 8 ∷ []) client r
unfolding new_ids digital_election_system.Client.Session.is_sent
collect_votes-Collected_example =
    collect_votes-Collected o sealing a servers can_seal (1 ∷ []) (7 ∷ []) (d 7 ∷ d 8 ∷ []) client
      refl (omega arith, tt) (d-IsUsable 7, (d-IsUsable 8, tt)) (omega arith)
