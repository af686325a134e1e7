-- ===== src/Controller/Progress.antt =====
-- server/src/MPCControllerImpl.go: a controller between arrivals and turns of addShare.
use digital_election_system.Common.{
  ℕ, suc, ◌≡◌, refl, sym, ap, ◌∙◌, subst, Option, some, List, [], ◌∷◌, ◌++◌, length, ℤ, pos,
}
use digital_election_system.Framework.{Share, NetworkStates, voting, result}
use digital_election_system.Commitment.{ActiveSecretSharing}
use digital_election_system.Commitment.Setup.{IsGroup}
use digital_election_system.Arithmetic.{new_arithmetic}
use digital_election_system.Controller.{
  ActiveMpcController, ChanStruct, send, new_share_arrived, add_votes, add_share, lookup_bool,
  new_active_mpc_controller,
}
use digital_election_system.Controller.Adding.{Vote, vote_at, votes_at}
use digital_election_system.Controller.Moves.{Move, arrive, take, arrivals, take_vote, run_moves}
use digital_election_system.Controller.Taking.{
  Taken, HaveLength, add_vote-kept, Taken-channel, add_vote-Works, add_votes-Works, append_snoc,
  append_nil,
}

module _ (a : ActiveSecretSharing) where
  -- The votes that have arrived are those taken and those that wait, in this order.
  pub record Progress (x k : ℕ) (arrived : List Vote) (p : ActiveMpcController) : Type 0 where
    pub taken : List Vote
    pub waiting : List Vote
    pub split : arrived ≡ taken ++ waiting
    pub channel : p.state_channel ≡ votes_at a x waiting
    pub open_vote : p.state.network ≡ voting
    pub arithmetic : p.arithmetic ≡ new_arithmetic a.prime_p a.prime_q
    pub unmarked : p.verified_shares ≡ []
    pub lengths : HaveLength a k waiting
    pub sum : Taken a x k taken p

  votes_at-snoc :
      (x : ℕ) (vs : List Vote) (w : Vote)
      → votes_at a x vs ++ vote_at a x w ∷ [] ≡ votes_at a x (vs ++ w ∷ [])
  votes_at-snoc x [] w = refl
  votes_at-snoc x (v ∷ vs) w = ap (λ l. vote_at a x v ∷ l) (votes_at-snoc x vs w)

  HaveLength-snoc :
      (k : ℕ) (vs : List Vote) (w : Vote)
      → HaveLength a k vs
      → length w.proof ≡ suc k
      → HaveLength a k (vs ++ w ∷ [])
  HaveLength-snoc k [] w h e = (e, tt)
  HaveLength-snoc k (v ∷ vs) w h e = (h.0, HaveLength-snoc k vs w h.1 e)

  take_vote-Progress :
      (x k : ℕ) (arrived : List Vote) (p : ActiveMpcController)
      → IsGroup a
      → Progress x k arrived p
      → (p' : ActiveMpcController) × (take_vote p ≡ some p') × Progress x k arrived p'
  unfolding take_vote
  take_vote-Progress x k arrived p group s = go s.waiting s.split s.channel s.lengths
    where
      go :
          (waiting : List Vote)
          → arrived ≡ s.taken ++ waiting
          → p.state_channel ≡ votes_at a x waiting
          → HaveLength a k waiting
          → (p' : ActiveMpcController) × (take_vote p ≡ some p') × Progress x k arrived p'
      go [] split channel lengths = (p, rw channel refl, s)
      go (w ∷ ws) split channel lengths =
          let q = record p { state_channel = votes_at a x ws } in
          let (p', e, s') = add_vote-Works a x k s.taken q w group lengths.0 (record {
            open_vote = s.open_vote;
            arithmetic = s.arithmetic;
            sum = Taken-channel a x k s.taken p (votes_at a x ws) s.sum;
          }) in
          let (same_channel, same_marks) = add_vote-kept a q (vote_at a x w) e in
          (
            p',
            rw (channel, s.open_vote) e,
            record {
              taken = s.taken ++ w ∷ [];
              waiting = ws;
              split = split ∙ sym (append_snoc a s.taken w ws);
              channel = same_channel;
              open_vote = s'.open_vote;
              arithmetic = s'.arithmetic;
              unmarked = same_marks ∙ s.unmarked;
              lengths = lengths.1;
              sum = s'.sum;
            },
          )

  new_share_arrived-sent :
      (p : ActiveMpcController) (c : ChanStruct)
      → p.state.network ≡ voting
      → p.verified_shares ≡ []
      → new_share_arrived p c.share c.proof ≡ send p c
  unfolding new_share_arrived lookup_bool
  new_share_arrived-sent p c open_vote unmarked = rw (open_vote, unmarked) refl

  arrive-Progress :
      (x k : ℕ) (arrived : List Vote) (p : ActiveMpcController) (w : Vote)
      → length w.proof ≡ suc k
      → Progress x k arrived p
      → Progress x k (arrived ++ w ∷ []) (send p (vote_at a x w))
  arrive-Progress x k arrived p w len s = record {
    taken = s.taken;
    waiting = s.waiting ++ w ∷ [];
    split = ap (λ l. l ++ w ∷ []) s.split ∙ append_assoc s.taken s.waiting (w ∷ []);
    channel = ap (λ l. l ++ vote_at a x w ∷ []) s.channel ∙ votes_at-snoc x s.waiting w;
    open_vote = s.open_vote;
    arithmetic = s.arithmetic;
    unmarked = s.unmarked;
    lengths = HaveLength-snoc k s.waiting w s.lengths len;
    sum = Taken-channel a x k s.taken p _ s.sum;
  }
    where
      append_assoc : (us vs ws : List Vote) → (us ++ vs) ++ ws ≡ us ++ (vs ++ ws)
      append_assoc [] vs ws = refl
      append_assoc (u ∷ us) vs ws = ap (λ l. u ∷ l) (append_assoc us vs ws)

  -- The moves of the server at a point.
  abbrev pub moves_at : ℕ → List (Move Vote) → List (Move ChanStruct)
  moves_at x [] = []
  moves_at x (arrive v ∷ ms) = arrive (vote_at a x v) ∷ moves_at x ms
  moves_at x (take ∷ ms) = take ∷ moves_at x ms

  run_moves-Progress :
      (x k : ℕ) (arrived : List Vote) (p : ActiveMpcController) (ms : List (Move Vote))
      → IsGroup a
      → HaveLength a k (arrivals ms)
      → Progress x k arrived p
      → (p' : ActiveMpcController) × (run_moves p (moves_at x ms) ≡ some p')
        × Progress x k (arrived ++ arrivals ms) p'
  unfolding run_moves
  run_moves-Progress x k arrived p [] group len s =
      (p, refl, subst (λ vs. Progress x k vs p) (sym (append_nil a arrived)) s)
  run_moves-Progress x k arrived p (arrive w ∷ ms) group len s =
      let (p', e, s') =
        run_moves-Progress x k (arrived ++ w ∷ []) (send p (vote_at a x w)) ms group len.1
          (arrive-Progress x k arrived p w len.0 s) in
      (
        p',
        ap (λ q. run_moves q (moves_at x ms))
              (new_share_arrived-sent p (vote_at a x w) s.open_vote s.unmarked)
            ∙ e,
        subst (λ vs. Progress x k vs p') (append_snoc a arrived w (arrivals ms)) s',
      )
  run_moves-Progress x k arrived p (take ∷ ms) group len s =
      let (p1, e1, s1) = take_vote-Progress x k arrived p group s in
      let (p2, e2, s2) = run_moves-Progress x k arrived p1 ms group len s1 in (p2, rw e1 e2, s2)

  -- A controller that starts at a point, after the moves and until no vote waits, holds a share of the
  -- sum of the votes that arrived.
  pub run_moves-Taken :
      (x k : ℕ) (start : Share) (start_proof : Option (List ℤ)) (ms : List (Move Vote))
      → IsGroup a
      → start.point ≡ pos x
      → HaveLength a k (arrivals ms)
      → (p p' : ActiveMpcController) × (run_moves
            (new_active_mpc_controller (new_arithmetic a.prime_p a.prime_q) start start_proof)
            (moves_at x ms)
          ≡ some p)
        × (add_share p ≡ some p')
        × Taken a x k (arrivals ms) p'
  unfolding new_active_mpc_controller add_share digital_election_system.Framework.new_state
  run_moves-Taken x k start start_proof ms group at_point len =
      let begin =
        new_active_mpc_controller (new_arithmetic a.prime_p a.prime_q) start start_proof in
      let (p, e, s) = run_moves-Progress x k [] begin ms group len (record {
        taken = [];
        waiting = [];
        split = refl;
        channel = refl;
        open_vote = refl;
        arithmetic = refl;
        unmarked = refl;
        lengths = tt;
        sum = (refl, at_point);
      }) in
      let (p', e', s') =
        add_votes-Works a x k s.taken s.waiting p group s.lengths
          (record { open_vote = s.open_vote; arithmetic = s.arithmetic; sum = s.sum }) in
      (
        p,
        p',
        e,
        ap (add_votes p) s.channel ∙ e',
        subst (λ vs. Taken a x k vs p') (sym s.split) s'.sum,
      )
