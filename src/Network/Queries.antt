-- ===== src/Network/Queries.antt =====
-- server/src/NetworkHTTPSImpl.go: the handlers that only answer. What they print is left out.
use digital_election_system.Framework.{MarshalFriendlyShare, share_for_network}
use digital_election_system.Common.{List, ℕ}
use digital_election_system.Network.{IpStruct, Network}
use digital_election_system.Controller.{ActiveMpcController, get_current_vote}

-- sendCurrentShare, on the observer of the server.
unfoldable pub send_current_share : ActiveMpcController → MarshalFriendlyShare
send_current_share observer = share_for_network (get_current_vote observer)

unfoldable pub get_all_participants : Network → List IpStruct
get_all_participants n = n.ip_list

-- getPublicKey, on the address of the server with its key.
unfoldable pub get_public_key : IpStruct → List ℕ
get_public_key own_ip = own_ip.public_key
