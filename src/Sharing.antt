-- ===== src/Sharing.antt =====
-- server/src/SecretSharingImpl.go, the sharing of a secret: a polynomial with the secret as its
-- constant term is given out point by point with commitments to its coefficients, a point is checked
-- against the commitments, and more points than the degree give the secret back.
pub mod Interpolation
pub mod Dealing
pub mod Forgery
pub mod Lagrange
pub mod Points
pub mod Recover
pub mod RoundTrip
use digital_election_system.Common.{
  ℕ, zero, suc, ◌+◌, ◌*◌, ◌%◌, Bool, true, false, Option, none, some, ◌>>=◌, List, [], ◌∷◌, ◌++◌,
  length, leb, ◌==◌, if◌then◌else◌, ℤ, pos, negsuc, ◌+ℤ◌, ◌-ℤ◌, ◌*ℤ◌,
}
use digital_election_system.Number.{emod, exp, mod_inverse, power}
use digital_election_system.Framework.{Share, ZeroKnowledge, new_share}
use digital_election_system.Commitment.{ActiveSecretSharing, bc}
use digital_election_system.Knowledge.{Oracle, create_zero_knowledge, verify01}

-- The loop of polynomial over the coefficients from x ^ i on.
unfoldable pub polynomial_loop : ℕ → ℤ → ℤ → ℕ → List ℤ → Option ℤ
polynomial_loop q x value i [] = some value
polynomial_loop q x value i (coef ∷ rest) = do
  xpow ← exp x (pos i) q
  polynomial_loop q x (value +ℤ pos xpow *ℤ coef) (i + 1) rest

-- An empty list of coefficients panics.
unfoldable pub polynomial : ActiveSecretSharing → ℤ → List ℤ → Option ℕ
polynomial a x [] = none
polynomial a x (c ∷ cs) = do value ← polynomial_loop a.prime_q x c 1 cs; some (emod value a.prime_q)

-- What SecretGen draws: the coefficients by their place, and the draws of the proof.
pub record Draws : Type 0 where
  pub g0 : ℕ
  pub f_coef : ℕ → ℕ
  pub g_coef : ℕ → ℕ
  pub vote_id : ℕ
  pub r : ℕ
  pub zs : List ℕ
  pub e : ℕ

-- The coefficients from place i on, n of them.
unfoldable pub coefficients : (ℕ → ℕ) → ℕ → ℕ → List ℤ
coefficients draw i zero = []
coefficients draw i (suc n) = pos (draw i) ∷ coefficients draw (i + 1) n

-- The commitments to the pairs of coefficients.
unfoldable pub commit_all : ActiveSecretSharing → List ℤ → List ℤ → Option (List ℤ)
commit_all a [] gs = some []
commit_all a (f ∷ fs) [] = some []
commit_all a (f ∷ fs) (g ∷ gs) = do c ← bc a f g; rest ← commit_all a fs gs; some (pos c ∷ rest)

-- The shares for the points x to x + n - 1.
unfoldable pub deal : ActiveSecretSharing → ℕ → List ℤ → List ℤ → ℕ → ℕ → Option (List Share)
deal a vote_id poly_f poly_g x zero = some []
deal a vote_id poly_f poly_g x (suc n) = do
  s ← polynomial a (pos x) poly_f
  t ← polynomial a (pos x) poly_g
  rest ← deal a vote_id poly_f poly_g (x + 1) n
  some (new_share (pos x) vote_id (pos s) (pos t) ∷ rest)

-- &proof[0]
unfoldable pub first : List ℤ → Option ℤ
first [] = none
first (c ∷ cs) = some c

unfoldable pub secret_gen :
    Oracle → ActiveSecretSharing → ℤ → Draws → Option (List Share × List ℤ × ZeroKnowledge)
secret_gen o a secret d = do
  let poly_f = secret ∷ coefficients d.f_coef 1 a.threshold
  let poly_g = pos d.g0 ∷ coefficients d.g_coef 1 a.threshold
  proof ← commit_all a poly_f poly_g
  proof0 ← first proof
  zk ← create_zero_knowledge o a d.g0 secret proof0 d.vote_id d.r d.zs d.e
  shares ← deal a d.vote_id poly_f poly_g 1 a.parties
  some (shares, proof, zk)

-- The product of the i-th commitments to the power point ^ i.
unfoldable pub proof_loop : ℕ → ℤ → ℕ → ℕ → List ℤ → Option ℕ
proof_loop p point acc i [] = some acc
proof_loop p point acc i (value ∷ rest) = do
  factor ← exp value (power point i) p
  proof_loop p point (acc * factor) (i + 1) rest

-- len(knowledge) == 0 || a.Verify01(knowledge[0], &proof[0], share.Id) == nil
unfoldable pub verify_knowledge :
    Oracle → ActiveSecretSharing → ℕ → List ℤ → Option ZeroKnowledge → Option Bool
verify_knowledge o a id proof none = some true
verify_knowledge o a id proof (some zk) = do
  proof0 ← first proof
  errors ← verify01 o a zk proof0 id
  some (length errors == 0)

-- VerifyShare, with or without a proof of knowledge; that is looked at only if the share fits.
unfoldable pub verify_share :
    Oracle → ActiveSecretSharing → Share → List ℤ → Option ZeroKnowledge → Option Bool
verify_share o a share proof knowledge = do
  committed ← bc a share.s share.t
  product ← proof_loop a.prime_p share.point 1 0 proof
  if committed == product % a.prime_p
      then verify_knowledge o a share.id proof knowledge
      else some false

-- The loop of Lagrange: the product of the -j, and that of the i - j.
unfoldable pub lagrange_loop : ℤ → ℤ → ℤ → List ℤ → ℤ × ℤ
lagrange_loop i num denom [] = (num, denom)
lagrange_loop i num denom (j ∷ m) = lagrange_loop i (num *ℤ (pos 0 -ℤ j)) (denom *ℤ (i -ℤ j)) m

unfoldable pub lagrange : ℤ → ℕ → List ℤ → Option ℕ
lagrange i m others = do
  let (num, denom) = lagrange_loop i (pos 1) (pos 1) others
  inverse ← mod_inverse denom m
  denom' ← exp (pos inverse) (pos 1) m
  some (emod (num *ℤ pos denom') m)

-- The slice points of the shares.
unfoldable pub points : List Share → List ℤ
points [] = []
points (v ∷ shares) = v.point ∷ points shares

-- The loop of reconstruct over the shares; before holds the points that came earlier.
unfoldable pub reconstruct_loop : ℕ → ℤ → List ℤ → List Share → Option ℤ
reconstruct_loop prime result before [] = some result
reconstruct_loop prime result before (v ∷ rest) = do
  delta ← lagrange v.point prime (before ++ points rest)
  reconstruct_loop prime (pos delta *ℤ v.s +ℤ result) (before ++ v.point ∷ []) rest

-- Fewer shares than t + 1 panic.
unfoldable pub reconstruct : List Share → ℕ → ℕ → Option ℕ
reconstruct shares t prime =
    if leb (length shares) t
    then none
    else (do result ← reconstruct_loop prime (pos 0) [] shares; some (emod result prime))

-- Reconstruct, with the multiple of t that it may be given.
unfoldable pub reconstruct_secret : ActiveSecretSharing → List Share → Option ℕ → Option ℕ
reconstruct_secret a shares none = reconstruct shares a.threshold a.prime_q
reconstruct_secret a shares (some t_mult) = reconstruct shares (t_mult * a.threshold) a.prime_q
