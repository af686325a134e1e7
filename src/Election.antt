-- ===== src/Election.antt =====
-- A whole election: what server/src/SecretSharingImpl.go deals for every vote arrives at the controllers
-- of server/src/MPCControllerImpl.go, in an order of its own at each of them, and Client/client.go asks
-- the servers for their states. The network between them is in Network.
pub mod Sums
pub mod Counting
use digital_election_system.Common.{
  ℕ, suc, ◌+◌, ◌*◌, ◌≡◌, Option, none, some, ◌>>=◌, List, [], ◌∷◌, get_elem?, ℤ, pos,
}
use digital_election_system.Framework.{Share, MarshalFriendlyShare}
use digital_election_system.Commitment.{ActiveSecretSharing}
use digital_election_system.Knowledge.{Oracle}
use digital_election_system.Sharing.{Draws, secret_gen}
use digital_election_system.Arithmetic.{new_arithmetic}
use digital_election_system.Controller.{
  ActiveMpcController, ChanStruct, new_active_mpc_controller, add_share,
}
use digital_election_system.Controller.Moves.{Move, arrive, take, run_moves}
use digital_election_system.Network.Queries.{send_current_share}
use digital_election_system.Client.{get_current_vote}

-- A vote and what its client draws for it.
pub record Ballot : Type 0 where
  pub secret : ℕ
  pub draws : Draws

-- A server: its index in the list, what StartNetwork returned to its controller, and what happens there.
pub record Server : Type 0 where
  pub index : ℕ
  pub start : Share
  pub start_proof : List ℤ
  pub moves : List (Move Ballot)

module _ (o : Oracle) (a : ActiveSecretSharing) where
  -- What SecretGen deals of a ballot to the server at an index, with the commitments.
  unfoldable pub dealt_to : ℕ → Ballot → Option ChanStruct
  dealt_to i b = do
    (shares, proof, zk) ← secret_gen o a (pos b.secret) b.draws
    share ← get_elem? shares i
    some (record { share = share; proof = some proof })

  unfoldable pub moves_of : ℕ → List (Move Ballot) → Option (List (Move ChanStruct))
  moves_of i [] = some []
  moves_of i (arrive b ∷ ms) = do c ← dealt_to i b; rest ← moves_of i ms; some (arrive c ∷ rest)
  moves_of i (take ∷ ms) = do rest ← moves_of i ms; some (take ∷ rest)

  -- The controller after its moves, when addShare has taken every vote that waits.
  unfoldable pub run_server : Server → Option ActiveMpcController
  run_server v = do
    ms ← moves_of v.index v.moves
    p ←
        run_moves
          (new_active_mpc_controller (new_arithmetic a.prime_p a.prime_q) v.start
            (some v.start_proof))
          ms
    add_share p

  -- The answers of the servers to a client that asks for the current shares.
  unfoldable pub answers : List Server → Option (List MarshalFriendlyShare)
  answers [] = some []
  answers (v ∷ vs) = do p ← run_server v; rest ← answers vs; some (send_current_share p ∷ rest)

  -- What the client prints as the current vote.
  unfoldable pub tally : List Server → Option ℕ
  tally vs = answers vs >>= (λ ms. get_current_vote a ms)
