-- ===== src/Framework/RoundTrip.antt =====
-- server/framework: values that are turned into their network form and back.
use digital_election_system.Common.{◌≡◌, refl, List, [], ◌∷◌, some, ℤ}
use digital_election_system.Framework.Decimal.{set_string-string}
use digital_election_system.Framework.{
  Share, ZeroKnowledge, share_for_network, transform_to_share, knowledge_for_network,
  transform_to_zero_knowledge, big_int_arr_to_str_arr, string_arr_to_big_int_arr,
}

-- A share survives its transport, with negative numbers too.
pub transform_to_share-share_for_network :
    (s : Share) → transform_to_share (share_for_network s) ≡ some s
unfolding transform_to_share share_for_network
transform_to_share-share_for_network s = simp set_string-string

-- A zero-knowledge proof survives its transport.
pub transform_to_zero_knowledge-knowledge_for_network :
    (z : ZeroKnowledge) → transform_to_zero_knowledge (knowledge_for_network z) ≡ some z
unfolding transform_to_zero_knowledge knowledge_for_network
transform_to_zero_knowledge-knowledge_for_network z = simp set_string-string

-- The commitments of a vote survive their transport.
pub string_arr_to_big_int_arr-big_int_arr_to_str_arr :
    (a : List ℤ) → string_arr_to_big_int_arr (big_int_arr_to_str_arr a) ≡ some a
unfolding string_arr_to_big_int_arr big_int_arr_to_str_arr
string_arr_to_big_int_arr-big_int_arr_to_str_arr [] = refl
string_arr_to_big_int_arr-big_int_arr_to_str_arr (v ∷ a) =
    simp (set_string-string, string_arr_to_big_int_arr-big_int_arr_to_str_arr a)
