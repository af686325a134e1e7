-- ===== src/Election/Counting.antt =====
-- The count of an election: every server adds what it is sent, and the client reconstructs the sum.
use mathlib.Core.List.{Permᴰ}
use native.Mathlib.Nat.{mod-eq_of_lt}
use digital_election_system.Common.{
  ℕ, zero, suc, ◌+◌, ◌*◌, ◌%◌, ◌^◌, ◌≤◌, ◌<◌, ◌≡◌, refl, sym, ap, ◌∙◌, subst, some, List, [], ◌∷◌,
  arith, length, length-map, map, All, get_elem?, pos,
}
use digital_election_system.Number.Congruence.{Cong-of_eq, ◌⊙◌}
use digital_election_system.Number.Prime.{IsPrime}
use digital_election_system.Framework.{Share, MarshalFriendlyShare, share_for_network}
use digital_election_system.Framework.RoundTrip.{transform_to_share-share_for_network}
use digital_election_system.Commitment.{ActiveSecretSharing}
use digital_election_system.Commitment.Setup.{IsGroup}
use digital_election_system.Knowledge.{Oracle}
use digital_election_system.Knowledge.Completeness.{first_usable}
use digital_election_system.Sharing.Interpolation.{eval}
use digital_election_system.Sharing.Dealing.{
  integers, commitments, share_at, shares_from, secret_gen_lem, f_coefs, g_coefs, length-f_coefs,
  length-naturals,
}
use digital_election_system.Sharing.Recover.{LiesOn, reconstruct_lem}
use digital_election_system.Sharing.{reconstruct_secret}
use digital_election_system.Controller.{ActiveMpcController}
use digital_election_system.Controller.Adding.{Vote, vote_at}
use digital_election_system.Controller.Moves.{Move, arrive, take, arrivals, sum_at}
use digital_election_system.Controller.Taking.{HaveLength, Taken}
use digital_election_system.Controller.Progress.{moves_at, run_moves-Taken}
use digital_election_system.Controller.Tally.{
  DistinctMod, AtPoints, length-AtPoints, Distinct-AtPoints,
}
use digital_election_system.Network.Queries.{send_current_share}
use digital_election_system.Client.{get_current_vote, transform_shares}
use digital_election_system.Election.{
  Ballot, Server, dealt_to, moves_of, run_server, answers, tally,
}
use digital_election_system.Election.Sums.{
  All-perm, length-perm, sum_at-perm, poly_sum, eval-poly_sum, length-poly_sum,
}

module _ (o : Oracle) (a : ActiveSecretSharing) where
  -- A vote of 0 or 1 whose draws of z have one that is neither 0 nor 1.
  pub record CanDeal (b : Ballot) : Type 0 where
    pub low : b.secret ≤ 1
    pub z : ℕ
    pub usable : first_usable o a b.draws.zs ≡ some z

  -- What SecretGen commits to.
  abbrev pub vote_of : Ballot → Vote
  vote_of b = record {
    fs = f_coefs a b.secret b.draws;
    gs = g_coefs a b.draws;
    id = b.draws.vote_id;
    proof = integers (commitments a (f_coefs a b.secret b.draws) (g_coefs a b.draws));
  }

  length-integers : (cs : List ℕ) → length (integers cs) ≡ length cs
  length-integers [] = refl
  length-integers (c ∷ cs) = ap suc (length-integers cs)

  length-commitments :
      (fs gs : List ℕ) → length fs ≡ length gs → length (commitments a fs gs) ≡ length fs
  unfolding commitments
  length-commitments [] gs h = refl
  length-commitments (f ∷ fs) [] h = absurd (omega arith)
  length-commitments (f ∷ fs) (g ∷ gs) h = ap suc (length-commitments fs gs (omega arith))

  length-proof : (b : Ballot) → length (vote_of b).proof ≡ suc a.threshold
  length-proof b =
      length-integers _
      ∙ length-commitments (f_coefs a b.secret b.draws) (g_coefs a b.draws) (
          omega (
            arith,
            length-naturals b.draws.f_coef 1 a.threshold,
            length-naturals b.draws.g_coef 1 a.threshold,
          ))
      ∙ omega (arith, length-naturals b.draws.f_coef 1 a.threshold)

  get_elem?-shares_from :
      (id : ℕ) (fs gs : List ℕ) (x n i : ℕ)
      → i < n
      → get_elem? (shares_from a id fs gs x n) i ≡ some (share_at a id fs gs (i + x))
  get_elem?-shares_from id fs gs x zero i h = absurd (omega arith)
  get_elem?-shares_from id fs gs x (suc n) zero h =
      ap (λ y. some (share_at a id fs gs y)) (omega arith)
  get_elem?-shares_from id fs gs x (suc n) (suc i) h =
      get_elem?-shares_from id fs gs (x + 1) n i (omega arith)
      ∙ ap (λ y. some (share_at a id fs gs y)) (omega arith)

  module _ (group : IsGroup a) (oracle_on : 0 < 2 ^ a.t_bit % a.prime_q) where
    dealt_to_lem :
        (i : ℕ) (b : Ballot)
        → i < a.parties
        → CanDeal b
        → dealt_to o a i b ≡ some (vote_at a (i + 1) (vote_of b))
    unfolding dealt_to
    dealt_to_lem i b h can =
        let (zk, made, _) =
          secret_gen_lem o a b.draws b.secret group can.usable oracle_on can.low in
        rw
          (
            made,
            get_elem?-shares_from b.draws.vote_id (f_coefs a b.secret b.draws) (g_coefs a b.draws) 1
                a.parties i h,
          )
          refl

    abbrev votes_in : List (Move Ballot) → List (Move Vote)
    votes_in [] = []
    votes_in (arrive b ∷ ms) = arrive (vote_of b) ∷ votes_in ms
    votes_in (take ∷ ms) = take ∷ votes_in ms

    arrivals-votes_in :
        (ms : List (Move Ballot)) → arrivals (votes_in ms) ≡ map vote_of (arrivals ms)
    arrivals-votes_in [] = refl
    arrivals-votes_in (arrive b ∷ ms) = ap (λ l. vote_of b ∷ l) (arrivals-votes_in ms)
    arrivals-votes_in (take ∷ ms) = arrivals-votes_in ms

    moves_of_lem :
        (i : ℕ) (ms : List (Move Ballot))
        → i < a.parties
        → All CanDeal (arrivals ms)
        → moves_of o a i ms ≡ some (moves_at a (i + 1) (votes_in ms))
    unfolding moves_of
    moves_of_lem i [] h can = refl
    moves_of_lem i (arrive b ∷ ms) h can =
        rw (dealt_to_lem i b h can.0, moves_of_lem i ms h can.1) refl
    moves_of_lem i (take ∷ ms) h can = rw (moves_of_lem i ms h can) refl

    HaveLength-votes : (bs : List Ballot) → HaveLength a a.threshold (map vote_of bs)
    HaveLength-votes [] = tt
    HaveLength-votes (b ∷ bs) = (length-proof b, HaveLength-votes bs)

    run_server-Taken :
        (v : Server)
        → v.index < a.parties
        → v.start.point ≡ pos (v.index + 1)
        → All CanDeal (arrivals v.moves)
        → (p : ActiveMpcController) × (run_server o a v ≡ some p)
          × Taken a (v.index + 1) a.threshold (map vote_of (arrivals v.moves)) p
    unfolding run_server
    run_server-Taken v h at_point can =
        let (p, p', e, e', s) =
          run_moves-Taken a (v.index + 1) a.threshold v.start (some v.start_proof)
            (votes_in v.moves) group at_point
            (subst (HaveLength a a.threshold) (sym (arrivals-votes_in v.moves))
              (HaveLength-votes (arrivals v.moves))) in
        (
          p',
          rw (moves_of_lem v.index v.moves h can, e) e',
          subst (λ vs. Taken a (v.index + 1) a.threshold vs p') (arrivals-votes_in v.moves) s,
        )

    Taken-LiesOn :
        (x k : ℕ) (us : List Vote) (cs : List ℕ) (p : ActiveMpcController)
        → 0 < length us
        → ((y : ℕ) → eval cs y ≡ sum_at y us)
        → Taken a x k us p
        → (p.state.share.point ≡ pos x) × LiesOn a.prime_q cs p.state.share
    Taken-LiesOn x k [] cs p some_votes sums s = absurd (omega arith)
    Taken-LiesOn x k (u ∷ us) cs p some_votes sums (ds, s, same) =
        (s.at_point, s.on ⊙ Cong-of_eq (same _ ∙ sym (sums _)))

    -- The server has an index among the parties, starts at its point, and is sent the ballots in some order.
    pub record IsServed (bs : List Ballot) (v : Server) : Type 0 where
      pub known : v.index < a.parties
      pub at_point : v.start.point ≡ pos (v.index + 1)
      pub sent : Permᴰ (arrivals v.moves) bs

    abbrev pub votes : List Ballot → List Vote
    votes bs = map vote_of bs

    run_server-LiesOn :
        (bs : List Ballot) (v : Server)
        → 0 < length bs
        → All CanDeal bs
        → IsServed bs v
        → (p : ActiveMpcController) × (run_server o a v ≡ some p)
          × (p.state.share.point ≡ pos (v.index + 1))
          × LiesOn a.prime_q (poly_sum (votes bs)) p.state.share
    run_server-LiesOn bs v some_votes can s =
        let (p, e, taken) = run_server-Taken v s.known s.at_point (All-perm CanDeal s.sent can) in
        let (at_point, on) =
          Taken-LiesOn (v.index + 1) a.threshold (map vote_of (arrivals v.moves))
            (poly_sum (votes bs)) p
            (omega (arith, length-perm s.sent, length-map (arrivals v.moves) vote_of))
            (λ y. eval-poly_sum y (votes bs) ∙ sym (sum_at-perm vote_of y s.sent)) taken in
        (p, e, at_point, on)

    abbrev pub points : List Server → List ℕ
    points [] = []
    points (v ∷ vs) = (v.index + 1) ∷ points vs

    answers-LiesOn :
        (bs : List Ballot) (vs : List Server)
        → 0 < length bs
        → All CanDeal bs
        → All (IsServed bs) vs
        → (ms : List MarshalFriendlyShare) × (ss : List Share) × (answers o a vs ≡ some ms)
          × (transform_shares ms ≡ some ss)
          × AtPoints a (points vs) ss
          × All (LiesOn a.prime_q (poly_sum (votes bs))) ss
    unfolding answers transform_shares send_current_share
    answers-LiesOn bs [] some_votes can served = ([], [], refl, refl, tt, tt)
    answers-LiesOn bs (v ∷ vs) some_votes can served =
        let (p, e, at_point, on) = run_server-LiesOn bs v some_votes can served.0 in
        let (ms, ss, e', read, at, rest) = answers-LiesOn bs vs some_votes can served.1 in
        (
          share_for_network p.state.share ∷ ms,
          p.state.share ∷ ss,
          rw (e, e') refl,
          rw (transform_to_share-share_for_network p.state.share, read) refl,
          (at_point, at),
          (on, rest),
        )

    abbrev pub yes_votes : List Ballot → ℕ
    yes_votes [] = 0
    yes_votes (b ∷ bs) = b.secret + yes_votes bs

    sum_at-secrets : (bs : List Ballot) → sum_at 0 (votes bs) ≡ yes_votes bs
    unfolding eval
    sum_at-secrets [] = refl
    sum_at-secrets (b ∷ bs) = omega (arith, sum_at-secrets bs)

    yes_votes_le : (bs : List Ballot) → All CanDeal bs → yes_votes bs ≤ length bs
    yes_votes_le [] can = omega arith
    yes_votes_le (b ∷ bs) can = omega (arith, can.0.low, yes_votes_le bs can.1)

    All-votes : (bs : List Ballot) → All (λ v. length v.fs ≤ a.threshold + 1) (votes bs)
    All-votes [] = tt
    All-votes (b ∷ bs) = (omega (arith, length-f_coefs a b.secret b.draws), All-votes bs)

    -- One ballot or more, fewer than the prime q, each of 0 or 1 and dealt by SecretGen, are sent to more
    -- than 2 t servers at points that differ modulo q. Each server gets them in an order of its own, mixed
    -- with turns of addShare in any way, and adds those that wait at the end. Then nothing panics, and the
    -- current vote that the client reconstructs from the answers of these servers is the number of ballots
    -- for 1, whatever share of its point each server started from. The bases have an order that divides
    -- q, the modulus of the hash is not 0, and each ballot has a draw of z that is neither 0 nor 1.
    pub tally_lem :
        (bs : List Ballot) (vs : List Server)
        → IsPrime a.prime_q
        → 0 < length bs
        → length bs < a.prime_q
        → All CanDeal bs
        → All (IsServed bs) vs
        → DistinctMod a (points vs)
        → 2 * a.threshold < length vs
        → tally o a vs ≡ some (yes_votes bs)
    unfolding tally get_current_vote reconstruct_secret
    tally_lem bs vs prime some_votes few can served distinct enough =
        let (ms, ss, e, read, at, on) = answers-LiesOn bs vs some_votes can served in
        let same : length ss ≡ length vs = length-AtPoints a (points vs) ss at ∙ length-points vs in
        rw (e, read)
          (reconstruct_lem a.prime_q (poly_sum (votes bs)) ss (2 * a.threshold) prime (omega arith)
            (omega (arith, length-poly_sum (a.threshold + 1) (votes bs) (All-votes bs)))
            (Distinct-AtPoints a (points vs) ss at distinct) on)
        ∙ ap some (
            ap (λ (t : ℕ). t % a.prime_q) (eval-poly_sum 0 (votes bs) ∙ sum_at-secrets bs)
            ∙ mod-eq_of_lt (omega (arith, yes_votes_le bs can)))
      where
        length-points : (vs : List Server) → length (points vs) ≡ length vs
        length-points [] = refl
        length-points (v ∷ vs) = ap suc (length-points vs)
