-- ===== src/Client/Session.antt =====
-- Client/client.go: the client reads the parameters of the election, and votes on command: one vote, or
-- many at random. Texts are split, lowered and read by the packages in Terminal; the drawn bits and
-- numbers are arguments. The goroutines of many votes hold a lock while they choose an id, so they are
-- taken one after the other.
pub mod Dealing
pub mod Freshness
pub mod Counting
pub mod Collecting
use digital_election_system.Common.{
  ℕ, zero, suc, Bool, true, false, Option, none, some, ◌>>=◌, List, [], ◌∷◌, ◌++◌, length, map, ℤ,
  pos, negsuc, if◌then◌else◌, ltb, ◌==◌, ◌||◌,
}
use digital_election_system.Framework.Decimal.{string, set_string}
use digital_election_system.Commitment.{ActiveSecretSharing, natural, new_active_secret_sharing}
use digital_election_system.Knowledge.{Oracle}
use digital_election_system.Sharing.{Draws}
use digital_election_system.Arithmetic.{ActiveArithmetic, new_arithmetic}
use digital_election_system.Network.{IpStruct, EncryptedShareListMarshalFriendly, same_text}
use digital_election_system.Network.Opening.{take_first, drop_first}
use digital_election_system.Network.Start.{ClientInfo}
use digital_election_system.Client.{Client, Sealing, generate_shares}

pub record Voter : Type 0 where
  pub client : Client
  pub prime_p : ℤ
  pub prime_q : ℤ
  pub session_id : ℕ
  pub ss : ActiveSecretSharing
  pub arth : ActiveArithmetic
  pub ids_sent : List ℕ
  pub posts : List (IpStruct × EncryptedShareListMarshalFriendly)

-- MakeClient and getClientInfo, on the server's answer.
unfoldable pub make_client : ClientInfo → Option Voter
make_client info = do
  prime_p ← set_string info.prime_p
  prime_q ← set_string info.prime_q
  p ← natural prime_p
  q ← natural prime_q
  ss ← new_active_secret_sharing (length info.ip_list) (string prime_p ∷ string prime_q ∷ [])
  some (record {
    client = record { ip_list = info.ip_list; vote_amount = pos 0; vote_value = pos 0 };
    prime_p = prime_p;
    prime_q = prime_q;
    session_id = info.session_id;
    ss = ss;
    arth = new_arithmetic p q;
    ids_sent = [];
    posts = [];
  })

-- getIpLists, on the list that the first server answers.
unfoldable pub get_ip_lists : Voter → List IpStruct → Voter
get_ip_lists s ips = record s { client = record s.client { ip_list = ips } }

-- strings.ToLower and strconv.Atoi
pub record Terminal : Type 0 where
  pub to_lower : List ℕ → List ℕ
  pub atoi : List ℕ → Option ℤ

pub data Command : Type 0 where
  no_input help no_value no_integer vote_value ips exit unknown : Command
  vote : ℤ → Command
  vote_multiple : ℤ → Bool → Command

-- "h", "vote", "v", "vote_value", "vv", "ip", "vm", "vote_multiple", "exit", "instant" and "i"
abbrev h_word : List ℕ
h_word = 104 ∷ []

abbrev vote_word : List ℕ
vote_word = 118 ∷ 111 ∷ 116 ∷ 101 ∷ []

abbrev v_word : List ℕ
v_word = 118 ∷ []

abbrev vote_value_word : List ℕ
vote_value_word = vote_word ++ 95 ∷ 118 ∷ 97 ∷ 108 ∷ 117 ∷ 101 ∷ []

abbrev vv_word : List ℕ
vv_word = 118 ∷ 118 ∷ []

abbrev ip_word : List ℕ
ip_word = 105 ∷ 112 ∷ []

abbrev vm_word : List ℕ
vm_word = 118 ∷ 109 ∷ []

abbrev vote_multiple_word : List ℕ
vote_multiple_word = vote_word ++ 95 ∷ 109 ∷ 117 ∷ 108 ∷ 116 ∷ 105 ∷ 112 ∷ 108 ∷ 101 ∷ []

abbrev exit_word : List ℕ
exit_word = 101 ∷ 120 ∷ 105 ∷ 116 ∷ []

abbrev instant_word : List ℕ
instant_word = 105 ∷ 110 ∷ 115 ∷ 116 ∷ 97 ∷ 110 ∷ 116 ∷ []

abbrev i_word : List ℕ
i_word = 105 ∷ []

unfoldable pub has_instant : List (List ℕ) → Bool
has_instant [] = false
has_instant (w ∷ rest) =
    if same_text w instant_word || same_text w i_word then true else has_instant rest

-- The number that a command needs.
unfoldable pub with_value : Terminal → List (List ℕ) → (ℤ → Command) → Command
with_value t [] command = no_value
with_value t (w ∷ rest) command = elim (t.atoi w) [ none ↦ no_integer | some val ↦ command val ]

-- The switch of startRunningLoop; the words after the first are looked at for "instant" only if there
-- are two or more.
unfoldable pub read_command : Terminal → List (List ℕ) → Command
read_command t [] = no_input
read_command t (w ∷ rest) =
    let word = t.to_lower w in
    if same_text word h_word
    then help
    else (if same_text word vote_word || same_text word v_word
        then with_value t rest vote
        else (if same_text word vote_value_word || same_text word vv_word
            then vote_value
            else (if same_text word ip_word
                then ips
                else (if same_text word vm_word || same_text word vote_multiple_word
                    then with_value t rest (λ val.
                      vote_multiple val (if ltb 1 (length rest) then has_instant rest else false))
                    else (if same_text word exit_word then exit else unknown)))))

-- idsSent
unfoldable pub is_sent : ℕ → List ℕ → Bool
is_sent k [] = false
is_sent k (j ∷ ids) = if k == j then true else is_sent k ids

-- vote: the post to each server is repeated until there is no error.
unfoldable pub post_vote :
    (List IpStruct → List IpStruct) → EncryptedShareListMarshalFriendly → Voter → Voter
post_vote shuffle share s = record s {
  posts = s.posts ++ map (λ ip. (ip, share)) (shuffle s.client.ip_list);
}

module _ (o : Oracle) (c : Sealing) where
  -- The loop that makes a vote again while its id was sent; `none` also where no draw is left.
  unfoldable pub generate_unused :
      ActiveSecretSharing
      → ℤ
      → Client
      → List ℕ
      → List Draws
      → Option (EncryptedShareListMarshalFriendly × Client × List Draws)
  generate_unused a value client ids [] = none
  generate_unused a value client ids (d ∷ draws) = do
    (tmp, client') ← generate_shares o a c d value client
    if is_sent tmp.id ids
        then generate_unused a value client' ids draws
        else some (tmp, client', draws)

  -- The goroutines of an instant vote_multiple, for the bits that they draw.
  unfoldable pub collect_votes :
      ActiveSecretSharing
      → List ℕ
      → Client
      → List ℕ
      → List Draws
      → Option (List EncryptedShareListMarshalFriendly × Client × List ℕ × List Draws)
  collect_votes a [] client ids draws = some ([], client, ids, draws)
  collect_votes a (j ∷ bits) client ids draws = do
    (tmp, client', draws') ← generate_unused a (pos j) client ids draws
    (shares, client'', ids', draws'') ← collect_votes a bits client' (tmp.id ∷ ids) draws'
    some (tmp ∷ shares, client'', ids', draws'')

  -- One vote, as the command vote and a vote_multiple that is not instant cast it.
  unfoldable pub cast :
      (List IpStruct → List IpStruct) → ℤ → Voter → List Draws → Option (Voter × List Draws)
  cast shuffle value s [] = none
  cast shuffle value s (d ∷ draws) = do
    (share, client) ← generate_shares o s.ss c d value s.client
    some (post_vote shuffle share (record s { client = client }), draws)

  unfoldable pub cast_all :
      (List IpStruct → List IpStruct) → List ℕ → Voter → List Draws → Option (Voter × List Draws)
  cast_all shuffle [] s draws = some (s, draws)
  cast_all shuffle (j ∷ bits) s draws = do
    (s', draws') ← cast shuffle (pos j) s draws
    cast_all shuffle bits s' draws'

  unfoldable pub post_all :
      (List IpStruct → List IpStruct) → List EncryptedShareListMarshalFriendly → Voter → Voter
  post_all shuffle [] s = s
  post_all shuffle (share ∷ shares) s = post_all shuffle shares (post_vote shuffle share s)

  -- val as the bound of a loop from 0
  abbrev times : ℤ → ℕ
  times (pos k) = k
  times (negsuc k) = 0

  -- What a command does to the client; the others print, or ask the servers.
  unfoldable pub run_command :
      (List IpStruct → List IpStruct)
      → Command
      → List ℕ
      → List Draws
      → Voter
      → Option (Voter × List ℕ × List Draws)
  run_command shuffle (vote value) bits draws s = do
    (s', draws') ← cast shuffle value s draws
    some (s', bits, draws')
  run_command shuffle (vote_multiple value false) bits draws s = do
    (s', draws') ← cast_all shuffle (take_first (times value) bits) s draws
    some (s', drop_first (times value) bits, draws')
  run_command shuffle (vote_multiple value true) bits draws s = do
    (shares, client, ids, draws') ←
        collect_votes s.ss (take_first (times value) bits) s.client s.ids_sent draws
    some (
      post_all shuffle shares (record s { client = client; ids_sent = ids }),
      drop_first (times value) bits,
      draws',
    )
  run_command shuffle _ bits draws s = some (s, bits, draws)

  -- startRunningLoop on the inputs that come: `exit` leaves the switch, and the loop goes on.
  unfoldable pub start_running_loop :
      Terminal
      → (List IpStruct → List IpStruct)
      → List (List (List ℕ))
      → List ℕ
      → List Draws
      → Voter
      → Option (Voter × List ℕ × List Draws)
  start_running_loop t shuffle [] bits draws s = some (s, bits, draws)
  start_running_loop t shuffle (input ∷ inputs) bits draws s = do
    (s', bits', draws') ← run_command shuffle (read_command t input) bits draws s
    start_running_loop t shuffle inputs bits' draws' s'
