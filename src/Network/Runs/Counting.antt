-- ===== src/Network/Runs/Counting.antt =====
-- server/src/NetworkHTTPSImpl.go: the votes passed on and the entries marked, over runs.
use digital_election_system.Network.{Message, Message, Message.server_share, Network}
use digital_election_system.Network.Store.{
  must-done, lookup_id-store_id, must-done, lookup_id-store_id,
}
use digital_election_system.Network.Runs.{Step, Step.server_share}
