-- ===== src/Framework.antt =====
-- server/framework: the values that the parts exchange, and their form on the network, where a
-- number is its decimal text. A text is the list of its character codes. An id is a UUID as a number.
pub mod Decimal
pub mod RoundTrip
use digital_election_system.Common.{ℕ, Option, none, some, ◌>>=◌, List, [], ◌∷◌, ℤ, pos}
use Decimal.{string, set_string}

pub record Share : Type 0 where
  pub s : ℤ
  pub t : ℤ
  pub point : ℤ
  pub id : ℕ

pub record MarshalFriendlyShare : Type 0 where
  pub s : List ℕ
  pub t : List ℕ
  pub point : ℤ
  pub id : ℕ

pub record ZeroKnowledge : Type 0 where
  pub a0 : ℤ
  pub e0 : ℤ
  pub z0 : ℤ
  pub a1 : ℤ
  pub e1 : ℤ
  pub z1 : ℤ

pub record ZeroKnowledgeMarshalFriendly : Type 0 where
  pub a0 : List ℕ
  pub e0 : List ℕ
  pub z0 : List ℕ
  pub a1 : List ℕ
  pub e1 : List ℕ
  pub z1 : List ℕ

-- ZeroKnowledge.TransformForNetwork
unfoldable pub knowledge_for_network : ZeroKnowledge → ZeroKnowledgeMarshalFriendly
knowledge_for_network z = record {
  a0 = string z.a0;
  e0 = string z.e0;
  z0 = string z.z0;
  a1 = string z.a1;
  e1 = string z.e1;
  z1 = string z.z1;
}

-- A text that is no number gives a nil pointer, whose use panics.
unfoldable pub transform_to_zero_knowledge : ZeroKnowledgeMarshalFriendly → Option ZeroKnowledge
transform_to_zero_knowledge z = do
  a0 ← set_string z.a0
  e0 ← set_string z.e0
  z0 ← set_string z.z0
  a1 ← set_string z.a1
  e1 ← set_string z.e1
  z1 ← set_string z.z1
  some (record { a0 = a0; e0 = e0; z0 = z0; a1 = a1; e1 = e1; z1 = z1 })

unfoldable pub big_int_arr_to_str_arr : List ℤ → List (List ℕ)
big_int_arr_to_str_arr [] = []
big_int_arr_to_str_arr (v ∷ a) = string v ∷ big_int_arr_to_str_arr a

unfoldable pub string_arr_to_big_int_arr : List (List ℕ) → Option (List ℤ)
string_arr_to_big_int_arr [] = some []
string_arr_to_big_int_arr (v ∷ a) = do
  tmp ← set_string v
  res ← string_arr_to_big_int_arr a
  some (tmp ∷ res)

-- Share.TransformForNetwork
unfoldable pub share_for_network : Share → MarshalFriendlyShare
share_for_network s = record { s = string s.s; t = string s.t; point = s.point; id = s.id }

unfoldable pub transform_to_share : MarshalFriendlyShare → Option Share
transform_to_share m = do
  s ← set_string m.s
  t ← set_string m.t
  some (record { s = s; t = t; point = m.point; id = m.id })

abbrev pub new_share : ℤ → ℕ → ℤ → ℤ → Share
new_share point id value_s value_t = record { s = value_s; t = value_t; point = point; id = id }

pub data NetworkStates : Type 0 where
  voting result : NetworkStates

-- `none` in `proof` is the nil slice.
pub record State : Type 0 where
  pub share : Share
  pub proof : Option (List ℤ)
  pub network : NetworkStates

-- NewState: a share that is given comes without its proof.
unfoldable pub new_state : Option Share → Option (List ℤ) → ℤ → State
new_state none proof point = record {
  share = record { s = pos 0; t = pos 0; point = point; id = 0 };
  proof = proof;
  network = voting;
}
new_state (some current) proof point = record { share = current; proof = none; network = voting }
