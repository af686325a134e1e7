-- ===== src/Controller/Panics.antt =====
-- server/src/MPCControllerImpl.go: votes whose number of commitments is not that of the state.
use digital_election_system.Common.{
  ◌≤◌, ◌<◌, ◌≡◌, refl, true, none, some, List, ◌∷◌, arith, length, ℤ, inr,
}
use digital_election_system.Knowledge.{equal}
use digital_election_system.Arithmetic.Panics.{sum_share, add-none_iff, add-fitting}
use digital_election_system.Arithmetic.Homomorphism.{appended-some}
use digital_election_system.Controller.{ActiveMpcController, ChanStruct, add_vote}

add_vote-none :
    (p : ActiveMpcController) (sec : ChanStruct) (vs bs : List ℤ)
    → sec.proof ≡ some vs
    → p.state.proof ≡ some bs
    → length bs < length vs
    → add_vote p sec ≡ none
unfolding add_vote
add_vote-none p sec vs bs has_proof state_proof longer =
    let panics = (add-none_iff p.arithmetic sec.share p.state.share (some vs) bs).1 (inr longer) in
    rw (has_proof, state_proof, panics)

-- A vote at the state's point with at least one commitment, but no more than the state has, is
-- added without a panic, and the next vote with more commitments than that one panics.
pub add_vote-shorter :
    (p : ActiveMpcController) (short next : ChanStruct) (v : ℤ) (vs bs ws : List ℤ)
    → equal short.share.point p.state.share.point ≡ true
    → short.proof ≡ some (v ∷ vs)
    → p.state.proof ≡ some bs
    → length (v ∷ vs) ≤ length bs
    → next.proof ≡ some ws
    → length (v ∷ vs) < length ws
    → (p' : ActiveMpcController) × (add_vote p short ≡ some p') × (add_vote p' next ≡ none)
unfolding add_vote
add_vote-shorter p short next v vs bs ws same short_proof state_proof fits next_proof longer =
    let (cs, made, len) =
      add-fitting p.arithmetic short.share p.state.share (some (v ∷ vs)) bs same fits in
    (
      record p {
        state = record p.state {
          share = sum_share p.arithmetic short.share p.state.share;
          proof = some cs;
        };
      },
      rw (short_proof, state_proof, made, appended-some cs (length vs) len),
      add_vote-none _ next ws cs next_proof refl (omega (arith, len, longer)),
    )
