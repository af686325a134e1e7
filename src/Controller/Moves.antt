-- ===== src/Controller/Moves.antt =====
-- server/src/MPCControllerImpl.go: NewShareArrived and the loop of addShare in any interleaving, for one
-- server. The votes arrive in any order, and between the arrivals the goroutine takes votes or waits.
use digital_election_system.Common.{ℕ, ◌+◌, ◌≡◌, Option, some, ◌>>=◌, List, [], ◌∷◌, ◌++◌, arith}
use digital_election_system.Framework.{voting, result}
use digital_election_system.Sharing.Interpolation.{eval}
use digital_election_system.Controller.{
  ActiveMpcController, ChanStruct, new_share_arrived, add_vote,
}
use digital_election_system.Controller.Adding.{Vote}

-- A call of NewShareArrived, or a turn of the loop of addShare.
pub data Move {ℓ} (A : Type ℓ) : Type ℓ where
  arrive : A → Move A
  take : Move A

abbrev pub arrivals {ℓ} : {A : Type ℓ} → List (Move A) → List A
arrivals [] = []
arrivals (arrive v ∷ ms) = v ∷ arrivals ms
arrivals (take ∷ ms) = arrivals ms

-- One turn of the loop: nothing while the channel is empty.
unfoldable pub take_vote : ActiveMpcController → Option ActiveMpcController
take_vote p = elim p.state_channel [
  | [] ↦ some p
  | sec ∷ rest ↦ elim p.state.network [
    | voting ↦ add_vote (record p { state_channel = rest }) sec
    | result ↦ some p
  ]
]

unfoldable pub run_moves : ActiveMpcController → List (Move ChanStruct) → Option ActiveMpcController
run_moves p [] = some p
run_moves p (arrive c ∷ ms) = run_moves (new_share_arrived p c.share c.proof) ms
run_moves p (take ∷ ms) = do p' ← take_vote p; run_moves p' ms

-- The sum of the votes' polynomials at a point.
abbrev pub sum_at : ℕ → List Vote → ℕ
sum_at y [] = 0
sum_at y (v ∷ vs) = eval v.fs y + sum_at y vs

pub sum_at-snoc :
    (y : ℕ) (vs : List Vote) (w : Vote) → sum_at y (vs ++ w ∷ []) ≡ eval w.fs y + sum_at y vs
sum_at-snoc y [] w = omega arith
sum_at-snoc y (v ∷ vs) w = omega (arith, sum_at-snoc y vs w)
