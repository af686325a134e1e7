-- ===== src/Network/Participants.antt =====
-- server/src/NetworkHTTPSImpl.go: the servers that a server knows, and how it hears of new ones.
use digital_election_system.Common.{
  ℕ, ◌+◌, Bool, false, List, [], ◌∷◌, ◌++◌, map, if◌then◌else◌, ◌&&◌, ◌||◌,
}
use digital_election_system.Network.{IpStruct, Message, new_participant, Network, same_text}

-- floodSingleClient, to each server.
abbrev pub flood : (IpStruct → Message) → List IpStruct → Network → Network
flood m ips n = record n { outbox = n.outbox ++ map m ips }

-- FloodNewParticipantInNetwork
abbrev pub flood_new_participant_in_network : Network → IpStruct → Network
flood_new_participant_in_network n ip = flood (λ v. new_participant v ip) n.ip_list n

-- The test of newParticipantInNetwork.
unfoldable pub knows : List IpStruct → IpStruct → Bool
knows [] ip = false
knows (v ∷ ips) ip = (same_text ip.ip v.ip && same_text ip.port v.port) || knows ips ip

unfoldable pub new_participant_in_network : Network → IpStruct → Network
new_participant_in_network n ip =
    if knows n.ip_list ip
    then n
    else flood_new_participant_in_network (record n { ip_list = n.ip_list ++ ip ∷ [] }) ip

-- joinNetwork: the reply is the list before the new server, which is added without a test.
unfoldable pub join_network : Network → IpStruct → List IpStruct × Network
join_network n ip =
    (n.ip_list, flood_new_participant_in_network (record n { ip_list = n.ip_list ++ ip ∷ [] }) ip)

unfoldable pub calculate_minimum_needed_parties : Network → ℕ
calculate_minimum_needed_parties n = n.t + n.t + 1
