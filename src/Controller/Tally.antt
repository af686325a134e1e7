-- ===== src/Controller/Tally.antt =====
-- server/src/MPCControllerImpl.go and Client/client.go: several servers that take the same votes, and the
-- tally of their states.
use digital_election_system.Common.{
  ℕ, suc, ◌+◌, ◌*◌, ◌%◌, ◌≤◌, ◌<◌, ◌≡◌, ◌≢◌, refl, ap, ◌∙◌, Option, some, ◌>>=◌, List, [], ◌∷◌,
  arith, length, All, ℤ, pos,
}
use digital_election_system.Number.Residue.{residue_pos}
use digital_election_system.Number.Prime.{IsPrime}
use digital_election_system.Framework.{Share}
use digital_election_system.Commitment.{ActiveSecretSharing}
use digital_election_system.Commitment.Setup.{IsGroup}
use digital_election_system.Sharing.Interpolation.{eval}
use digital_election_system.Sharing.Points.{Distinct, Differs}
use digital_election_system.Sharing.Recover.{LiesOn, reconstruct_lem}
use digital_election_system.Sharing.{reconstruct_secret}
use digital_election_system.Controller.{ActiveMpcController, add_share, get_current_vote}
use digital_election_system.Controller.Adding.{
  Vote, poly_add, eval-poly_add, length-poly_add, total, HasProofs, server_at, server-Holds,
}

module _ (a : ActiveSecretSharing) where
  -- The servers at the points of the list, each with its start share, after all of them took the votes.
  unfoldable pub run_servers : (ℕ → Share) → List Vote → List ℕ → Option (List ActiveMpcController)
  run_servers start vs [] = some []
  run_servers start vs (x ∷ xs) = do
    p ← add_share (server_at a (start x) x vs)
    rest ← run_servers start vs xs
    some (p ∷ rest)

  -- The points differ modulo q.
  abbrev pub DiffersMod : ℕ → List ℕ → Type 0
  DiffersMod x [] = Unit {0}
  DiffersMod x (y ∷ ys) = (y % a.prime_q ≢ x % a.prime_q) × DiffersMod x ys

  abbrev pub DistinctMod : List ℕ → Type 0
  DistinctMod [] = Unit {0}
  DistinctMod (x ∷ xs) = DiffersMod x xs × DistinctMod xs

  -- The current votes of the servers, as the client collects them.
  abbrev pub current_votes : List ActiveMpcController → List Share
  current_votes [] = []
  current_votes (p ∷ ps) = get_current_vote p ∷ current_votes ps

  abbrev pub AtPoints : List ℕ → List Share → Type 0
  AtPoints [] [] = Unit {0}
  AtPoints [] (s ∷ ss) = ⊥
  AtPoints (x ∷ xs) [] = ⊥
  AtPoints (x ∷ xs) (s ∷ ss) = (s.point ≡ pos x) × AtPoints xs ss

  run_servers_lem :
      (start : ℕ → Share) (k : ℕ) (v : Vote) (vs : List Vote) (xs : List ℕ)
      → IsGroup a
      → HasProofs a k (v ∷ vs)
      → (ps : List ActiveMpcController) × (run_servers start (v ∷ vs) xs ≡ some ps)
        × AtPoints xs (current_votes ps)
        × All (LiesOn a.prime_q (total a v.fs vs)) (current_votes ps)
  unfolding run_servers
  run_servers_lem start k v vs [] group len = ([], refl, tt, tt)
  run_servers_lem start k v vs (x ∷ xs) group len =
      let (p, e, s) = server-Holds a (start x) x k v vs group len in
      let (ps, e', at, on) = run_servers_lem start k v vs xs group len in
      (p ∷ ps, rw (e, e') refl, (s.at_point, at), (s.on, on))

  pub length-AtPoints : (xs : List ℕ) (ss : List Share) → AtPoints xs ss → length ss ≡ length xs
  length-AtPoints [] [] h = refl
  length-AtPoints [] (s ∷ ss) h = absurd h
  length-AtPoints (x ∷ xs) [] h = absurd h
  length-AtPoints (x ∷ xs) (s ∷ ss) h = ap suc (length-AtPoints xs ss h.1)

  Differs-AtPoints :
      (x : ℕ) (z : ℤ) (xs : List ℕ) (ss : List Share)
      → z ≡ pos x
      → AtPoints xs ss
      → DiffersMod x xs
      → Differs a.prime_q z ss
  Differs-AtPoints x z [] [] e at h = tt
  Differs-AtPoints x z [] (s ∷ ss) e at h = absurd at
  Differs-AtPoints x z (y ∷ ys) [] e at h = absurd at
  Differs-AtPoints x z (y ∷ ys) (s ∷ ss) e at h = (
    rw (at.0, e, residue_pos a.prime_q y, residue_pos a.prime_q x) h.0,
    Differs-AtPoints x z ys ss e at.1 h.1,
  )

  pub Distinct-AtPoints :
      (xs : List ℕ) (ss : List Share) → AtPoints xs ss → DistinctMod xs → Distinct a.prime_q ss
  Distinct-AtPoints [] [] at h = tt
  Distinct-AtPoints [] (s ∷ ss) at h = absurd at
  Distinct-AtPoints (x ∷ xs) [] at h = absurd at
  Distinct-AtPoints (x ∷ xs) (s ∷ ss) at h =
      (Differs-AtPoints x s.point xs ss at.0 at.1 h.0, Distinct-AtPoints xs ss at.1 h.1)

  -- The sum of the votes' secrets, which are the values of their polynomials at 0.
  abbrev pub ballots : List Vote → ℕ
  ballots [] = 0
  ballots (v ∷ vs) = eval v.fs 0 + ballots vs

  abbrev pub HasDegree : ℕ → List Vote → Type 0
  HasDegree t [] = Unit {0}
  HasDegree t (v ∷ vs) = (length v.fs ≤ t + 1) × HasDegree t vs

  eval-total : (cs : List ℕ) (vs : List Vote) → eval (total a cs vs) 0 ≡ eval cs 0 + ballots vs
  unfolding total
  eval-total cs [] = omega arith
  eval-total cs (v ∷ vs) = omega (arith, eval-total (poly_add v.fs cs) vs, eval-poly_add 0 v.fs cs)

  length-total :
      (t : ℕ) (cs : List ℕ) (vs : List Vote)
      → length cs ≤ t + 1
      → HasDegree t vs
      → length (total a cs vs) ≤ t + 1
  unfolding total
  length-total t cs [] h d = h
  length-total t cs (v ∷ vs) h d =
      length-total t (poly_add v.fs cs) vs (length-poly_add (t + 1) v.fs cs d.0 h) d.1

  -- Take servers at points that differ modulo the prime q, more than 2 t of them, and one vote or more,
  -- shared by polynomials with at most t + 1 coefficients and equally many commitments, at least one.
  -- Every server takes all the votes without a panic, whatever its start share was, and the current
  -- votes of the servers reconstruct, as the client does it, to the sum of the secrets modulo q.
  pub reconstruct_secret-run_servers :
      (start : ℕ → Share) (k : ℕ) (v : Vote) (vs : List Vote) (xs : List ℕ)
      → IsGroup a
      → IsPrime a.prime_q
      → HasProofs a k (v ∷ vs)
      → HasDegree a.threshold (v ∷ vs)
      → DistinctMod xs
      → 2 * a.threshold < length xs
      → (ps : List ActiveMpcController) × (run_servers start (v ∷ vs) xs ≡ some ps)
        × (reconstruct_secret a (current_votes ps) (some 2) ≡ some (ballots (v ∷ vs) % a.prime_q))
  unfolding reconstruct_secret
  reconstruct_secret-run_servers start k v vs xs group prime len degree distinct enough =
      let (ps, e, at, on) = run_servers_lem start k v vs xs group len in
      let same : length (current_votes ps) ≡ length xs = length-AtPoints xs (current_votes ps) at in
      (
        ps,
        e,
        reconstruct_lem a.prime_q (total a v.fs vs) (current_votes ps) (2 * a.threshold) prime
              (omega arith) (omega (arith, length-total a.threshold v.fs vs degree.0 degree.1))
              (Distinct-AtPoints xs (current_votes ps) at distinct) on
            ∙ ap (λ (t : ℕ). some (t % a.prime_q)) (eval-total v.fs vs),
      )
