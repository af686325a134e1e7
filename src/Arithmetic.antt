-- ===== src/Arithmetic.antt =====
-- server/src/ArithmeticLogicImpl.go: sums of shares and multiples of a share, with the commitments
-- that belong to them. A slice of commitments that is nil is `none`.
pub mod Fits
pub mod Homomorphism
pub mod Panics
use digital_election_system.Common.{
  ℕ, Bool, true, false, Option, none, some, ◌>>=◌, List, [], ◌∷◌, if◌then◌else◌, ℤ, pos, ◌+ℤ◌, ◌*ℤ◌,
}
use digital_election_system.Number.{emod, exp}
use digital_election_system.Framework.{Share, new_share}
use digital_election_system.Knowledge.{equal}

pub record ActiveArithmetic : Type 0 where
  pub prime_p : ℕ
  pub prime_q : ℕ

abbrev pub new_arithmetic : ℕ → ℕ → ActiveArithmetic
new_arithmetic p q = record { prime_p = p; prime_q = q }

-- Different points panic.
unfoldable pub validate : Share → Share → Option (Unit {0})
unfolding equal
validate a b = if equal a.point b.point then some tt else none

-- The loop over the commitments of a; an index past the end of those of b panics.
unfoldable pub multiply_proofs : ℕ → List ℤ → List ℤ → Option (List ℤ)
multiply_proofs p [] bs = some []
multiply_proofs p (a ∷ as') [] = none
multiply_proofs p (a ∷ as') (b ∷ bs) = do
  rest ← multiply_proofs p as' bs
  some (pos (emod (a *ℤ b) p) ∷ rest)

-- A slice that nothing was appended to is still nil.
abbrev pub appended : List ℤ → Option (List ℤ)
appended [] = none
appended (v ∷ vs) = some (v ∷ vs)

-- A loop over a nil slice does nothing.
abbrev pub entries : Option (List ℤ) → List ℤ
entries none = []
entries (some vs) = vs

unfoldable pub add :
    ActiveArithmetic
    → Share
    → Share
    → Option (List ℤ)
    → Option (List ℤ)
    → Option (Share × Option (List ℤ))
add s a b a_proof none = do u ← validate a b; some (a, a_proof)
add s a b a_proof (some b_proof) = do
  u ← validate a b
  proof ← multiply_proofs s.prime_p (entries a_proof) b_proof
  some (
    new_share a.point a.id (pos (emod (a.s +ℤ b.s) s.prime_q)) (pos (emod (a.t +ℤ b.t) s.prime_q)),
    appended proof,
  )

-- A commitment without an inverse panics under a negative factor.
unfoldable pub power_proofs : ℕ → ℤ → List ℤ → Option (List ℤ)
power_proofs p a [] = some []
power_proofs p a (v ∷ vs) = do r ← exp v a p; rest ← power_proofs p a vs; some (pos r ∷ rest)

unfoldable pub multiply_const :
    ActiveArithmetic → Share → ℤ → List ℤ → Option (Share × Option (List ℤ))
multiply_const s share a a_proof = do
  proof ← power_proofs s.prime_p a a_proof
  some (
    new_share share.point share.id (pos (emod (a *ℤ share.s) s.prime_q))
        (pos (emod (a *ℤ share.t) s.prime_q)),
    some proof,
  )
