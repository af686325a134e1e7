-- ===== src/Network/Connections.antt =====
-- server/src/NetworkHTTPSImpl.go and Client/client.go: the connections to the other servers, which
-- createClient and createRPCClient make on first use and keep. A connection is a number; the new one
-- (resty.New, rpc.Dial) is an argument, and `none` is nil. An address is "ip:port".
pub mod Reuse
use digital_election_system.Common.{
  ℕ, Bool, true, false, Option, none, some, List, [], ◌∷◌, ◌++◌, if◌then◌else◌,
}
use digital_election_system.Network.{IpStruct, same_text}

pub record ClientHolder : Type 0 where
  pub client : Option ℕ
  pub rpc_client : Option ℕ
  pub ip_port : List ℕ

-- fmt.Sprintf("%s:%s", ip, port): 58 is the colon.
abbrev pub address : List ℕ → List ℕ → List ℕ
address ip port = ip ++ 58 ∷ port

-- The loops of the server run to the end, so the last holder of an address counts.
unfoldable pub last_holder : List ℕ → List ClientHolder → Option ClientHolder → Option ClientHolder
last_holder str [] holder = holder
last_holder str (v ∷ clients) holder =
    last_holder str clients (if same_text str v.ip_port then some v else holder)

-- createClient of the server.
unfoldable pub create_client : IpStruct → ℕ → List ClientHolder → Option ℕ × List ClientHolder
create_client ip new clients = elim (last_holder (address ip.ip ip.port) clients none) [
  | some holder ↦ (holder.client, clients)
  | none ↦ (
    some new,
    clients
        ++ record { client = some new; rpc_client = none; ip_port = address ip.ip ip.port } ∷ [],
  )
]

-- The assignment to `holder.rpcClient`, which is the last holder of the address.
unfoldable pub has_holder : List ℕ → List ClientHolder → Bool
has_holder str [] = false
has_holder str (v ∷ clients) = if same_text str v.ip_port then true else has_holder str clients

unfoldable pub set_rpc_client : List ℕ → Option ℕ → List ClientHolder → List ClientHolder
set_rpc_client str rpc [] = []
set_rpc_client str rpc (v ∷ clients) =
    let rest = set_rpc_client str rpc clients in
    if same_text str v.ip_port
    then (if has_holder str clients then v ∷ rest else record v { rpc_client = rpc } ∷ clients)
    else v ∷ rest

-- createRPCClient, of the server and of the client; `dialled` is what rpc.Dial gives.
unfoldable pub create_rpc_client :
    IpStruct → Option ℕ → List ClientHolder → Option ℕ × List ClientHolder
create_rpc_client ip dialled clients = elim (last_holder (address ip.ip ip.rpc_port) clients none) [
  | some holder ↦ elim holder.rpc_client [
    | some rpc ↦ (some rpc, clients)
    | none ↦ (dialled, set_rpc_client (address ip.ip ip.rpc_port) dialled clients)
  ]
  | none ↦ (
    dialled,
    clients
        ++ record { client = none; rpc_client = dialled; ip_port = address ip.ip ip.rpc_port } ∷ [],
  )
]

-- createClient of the client stops at the first holder of the address.
unfoldable pub first_holder : List ℕ → List ClientHolder → Option ClientHolder
first_holder str [] = none
first_holder str (v ∷ clients) =
    if same_text v.ip_port str then some v else first_holder str clients

unfoldable pub voter_create_client : IpStruct → ℕ → List ClientHolder → Option ℕ × List ClientHolder
voter_create_client ip new clients = elim (first_holder (address ip.ip ip.port) clients) [
  | some holder ↦ (holder.client, clients)
  | none ↦ (
    some new,
    clients
        ++ record { client = some new; rpc_client = none; ip_port = address ip.ip ip.port } ∷ [],
  )
]
