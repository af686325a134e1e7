-- ===== src/Controller.antt =====
-- server/src/MPCControllerImpl.go: the state of a server's controller, and what it does with the votes
-- that the network delivers. A goroutine takes votes from a channel and adds them to the state; the
-- channel is the list of votes that it has still to take. The secret sharing, the network, the locks and
-- the logger that the struct points to are in their own modules.
pub mod Adding
pub mod Tally
pub mod Panics
pub mod Revoke
pub mod Moves
pub mod Taking
pub mod Progress
use digital_election_system.Common.{
  ℕ, zero, suc, ◌+◌, ◌*◌, ◌%◌, ◌^◌, Bool, true, false, Option, none, some, ◌>>=◌, List, [], ◌∷◌,
  ◌++◌, length, leb, ◌==◌, if◌then◌else◌, ℤ, pos, negsuc,
}
use digital_election_system.Framework.{Share, State, NetworkStates, voting, result, new_state}
use digital_election_system.Knowledge.{equal}
use digital_election_system.Commitment.{ActiveSecretSharing}
use digital_election_system.Sharing.{reconstruct_secret}
use digital_election_system.Arithmetic.{ActiveArithmetic, add, multiply_const}

pub record ChanStruct : Type 0 where
  pub share : Share
  pub proof : Option (List ℤ)

pub record ActiveMpcController : Type 0 where
  pub arithmetic : ActiveArithmetic
  pub state : State
  pub state_channel : List ChanStruct
  pub start_share : Share
  pub verified_shares : List (ℕ × Bool)

-- A key that is missing from a Go map of Booleans reads as false.
unfoldable pub lookup_bool : ℕ → List (ℕ × Bool) → Bool
lookup_bool k [] = false
lookup_bool k ((j, v) ∷ m) = if k == j then v else lookup_bool k m

-- NewActiveMPCController, on what StartNetwork returned.
unfoldable pub new_active_mpc_controller :
    ActiveArithmetic → Share → Option (List ℤ) → ActiveMpcController
unfolding new_state
new_active_mpc_controller arithmetic start_share start_proof = record {
  arithmetic = arithmetic;
  state = new_state (some start_share) start_proof start_share.point;
  state_channel = [];
  start_share = start_share;
  verified_shares = [];
}

-- A send on the channel.
abbrev pub send : ActiveMpcController → ChanStruct → ActiveMpcController
send p c = record p { state_channel = p.state_channel ++ c ∷ [] }

-- RevokeVote sends the share times -1.
unfoldable pub revoke_vote : ActiveMpcController → Share → List ℤ → Option ActiveMpcController
revoke_vote p share proof = do
  (negative_share, negative_proof) ← multiply_const p.arithmetic share (negsuc 0) proof
  some (send p (record { share = negative_share; proof = negative_proof }))

unfoldable pub changed_network_state : ActiveMpcController → NetworkStates → ActiveMpcController
changed_network_state p s = record p { state = record p.state { network = s } }

abbrev pub get_current_vote : ActiveMpcController → Share
get_current_vote p = p.state.share

-- NewShareArrived: only while voting, and not for an id that is marked as verified.
unfoldable pub new_share_arrived :
    ActiveMpcController → Share → Option (List ℤ) → ActiveMpcController
unfolding lookup_bool
new_share_arrived p share proof = elim p.state.network [
  | voting ↦
      if lookup_bool share.id p.verified_shares
      then p
      else send p (record { share = share; proof = proof })
  | result ↦ p
]

-- Add of the controller puts the state first.
unfoldable pub controller_add :
    ActiveMpcController → Share → Option (List ℤ) → Option ActiveMpcController
controller_add p s s_proof = do
  (share, proof) ← add p.arithmetic p.state.share s p.state.proof s_proof
  some (record p { state = record p.state { share = share; proof = proof } })

-- The body of the loop of addShare, for the vote that it takes: the vote goes first.
unfoldable pub add_vote : ActiveMpcController → ChanStruct → Option ActiveMpcController
add_vote p sec = do
  (share, proof) ← add p.arithmetic sec.share p.state.share sec.proof p.state.proof
  some (record p { state = record p.state { share = share; proof = proof } })

-- addShare on the votes of the channel, in order, until the state is that of the result.
unfoldable pub add_votes : ActiveMpcController → List ChanStruct → Option ActiveMpcController
add_votes p [] = some (record p { state_channel = [] })
add_votes p (sec ∷ rest) = elim p.state.network [
  | voting ↦ add_vote p sec >>= (λ p'. add_votes p' rest)
  | result ↦ some (record p { state_channel = sec ∷ rest })
]

unfoldable pub add_share : ActiveMpcController → Option ActiveMpcController
add_share p = add_votes p p.state_channel

-- VerifyShare of the controller: the set must have more than t + 1 shares, and reconstructs, with twice
-- the degree, to a number whose Int64 (its lowest 64 bits) is 0.
unfoldable pub controller_verify_share : ActiveSecretSharing → List Share → Option Bool
controller_verify_share ss verification_set =
    if leb (length verification_set) (ss.threshold + 1)
    then none
    else (do x ← reconstruct_secret ss verification_set (some 2); some (x % 2 ^ 64 == 0))
