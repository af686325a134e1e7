-- ===== src/Controller/Taking.antt =====
-- server/src/MPCControllerImpl.go: the votes that addShare takes, one after the other.
use digital_election_system.Common.{
  ℕ, suc, ◌≡◌, refl, sym, ap, ◌∙◌, subst, none, some, some_inj, bind-some, List, [], ◌∷◌, ◌++◌,
  arith, length, pos,
}
use digital_election_system.Framework.{voting}
use digital_election_system.Commitment.{ActiveSecretSharing}
use digital_election_system.Commitment.Setup.{IsGroup}
use digital_election_system.Sharing.Interpolation.{eval}
use digital_election_system.Sharing.RoundTrip.{share_at-LiesOn}
use digital_election_system.Arithmetic.{new_arithmetic, add}
use digital_election_system.Arithmetic.Homomorphism.{validate_same}
use digital_election_system.Controller.{ActiveMpcController, ChanStruct, add_vote, add_votes}
use digital_election_system.Controller.Adding.{
  Vote, poly_add, eval-poly_add, vote_at, votes_at, Holds, add_vote-Holds,
}
use digital_election_system.Controller.Moves.{sum_at, sum_at-snoc}

module _ (a : ActiveSecretSharing) where
  -- What the state holds after the votes that were taken: a share of their sum. Before the first of them
  -- it has no commitments.
  abbrev pub Taken : ℕ → ℕ → List Vote → ActiveMpcController → Type 0
  Taken x k [] p = (p.state.proof ≡ none) × (p.state.share.point ≡ pos x)
  Taken x k (v ∷ vs) p =
      (cs : List ℕ) × Holds a x k cs p × ((y : ℕ) → eval cs y ≡ sum_at y (v ∷ vs))

  abbrev pub HaveLength : ℕ → List Vote → Type 0
  HaveLength k [] = Unit {0}
  HaveLength k (v ∷ vs) = (length v.proof ≡ suc k) × HaveLength k vs

  -- Adding changes neither the channel nor the marks.
  pub add_vote-kept :
      (p : ActiveMpcController) (c : ChanStruct) {p' : ActiveMpcController}
      → add_vote p c ≡ some p'
      → (p'.state_channel ≡ p.state_channel) × (p'.verified_shares ≡ p.verified_shares)
  unfolding add_vote
  add_vote-kept p c h =
      let (_, _, made) =
        bind-some (add p.arithmetic c.share p.state.share c.proof p.state.proof) h in
      (
        ap (λ r. r.state_channel) (sym (some_inj made)),
        ap (λ r. r.verified_shares) (sym (some_inj made)),
      )

  first-Holds :
      (x k : ℕ) (p : ActiveMpcController) (v : Vote)
      → length v.proof ≡ suc k
      → p.arithmetic ≡ new_arithmetic a.prime_p a.prime_q
      → p.state.network ≡ voting
      → p.state.proof ≡ none
      → p.state.share.point ≡ pos x
      → (p' : ActiveMpcController) × (add_vote p (vote_at a x v) ≡ some p') × Holds a x k v.fs p'
  unfolding add_vote add
  first-Holds x k p v len arithmetic open_vote bare at_point = (
    record p { state = record p.state { share = (vote_at a x v).share; proof = some v.proof } },
    rw (arithmetic, bare, validate_same (vote_at a x v).share p.state.share (sym at_point)) refl,
    record {
      arithmetic = arithmetic;
      open_vote = open_vote;
      proof = v.proof;
      has_proof = refl;
      proof_length = len;
      at_point = refl;
      on = share_at-LiesOn a v.id x v.fs v.gs;
    },
  )

  pub Taken-channel :
      (x k : ℕ) (vs : List Vote) (p : ActiveMpcController) (cs : List ChanStruct)
      → Taken x k vs p
      → Taken x k vs (record p { state_channel = cs })
  Taken-channel x k [] p cs h = h
  Taken-channel x k (v ∷ vs) p cs (fs, s, e) = (
    fs,
    record {
      arithmetic = s.arithmetic;
      open_vote = s.open_vote;
      proof = s.proof;
      has_proof = s.has_proof;
      proof_length = s.proof_length;
      at_point = s.at_point;
      on = s.on;
    },
    e,
  )

  -- The controller is at work for the votes taken.
  pub record Works (x k : ℕ) (taken : List Vote) (p : ActiveMpcController) : Type 0 where
    pub open_vote : p.state.network ≡ voting
    pub arithmetic : p.arithmetic ≡ new_arithmetic a.prime_p a.prime_q
    pub sum : Taken x k taken p

  pub add_vote-Works :
      (x k : ℕ) (taken : List Vote) (p : ActiveMpcController) (w : Vote)
      → IsGroup a
      → length w.proof ≡ suc k
      → Works x k taken p
      → (p' : ActiveMpcController) × (add_vote p (vote_at a x w) ≡ some p')
        × Works x k (taken ++ w ∷ []) p'
  add_vote-Works x k [] p w group len s =
      let (p', e, h) = first-Holds x k p w len s.arithmetic s.open_vote s.sum.0 s.sum.1 in
      (
        p',
        e,
        record {
          open_vote = h.open_vote;
          arithmetic = h.arithmetic;
          sum = (w.fs, h, λ y. omega arith);
        },
      )
  add_vote-Works x k (v ∷ vs) p w group len s =
      let (cs, held, sums) = s.sum in
      let (p', e, h) = add_vote-Holds a x k cs p w group len held in
      (
        p',
        e,
        record {
          open_vote = h.open_vote;
          arithmetic = h.arithmetic;
          sum = (
            poly_add w.fs cs,
            h,
            λ y. eval-poly_add y w.fs cs ∙ omega (arith, sums y, sum_at-snoc y vs w),
          );
        },
      )

  pub append_snoc :
      (vs : List Vote) (w : Vote) (ws : List Vote) → (vs ++ w ∷ []) ++ ws ≡ vs ++ w ∷ ws
  append_snoc [] w ws = refl
  append_snoc (v ∷ vs) w ws = ap (λ l. v ∷ l) (append_snoc vs w ws)

  pub append_nil : (vs : List Vote) → vs ++ [] ≡ vs
  append_nil [] = refl
  append_nil (v ∷ vs) = ap (λ l. v ∷ l) (append_nil vs)

  pub add_votes-Works :
      (x k : ℕ) (taken waiting : List Vote) (p : ActiveMpcController)
      → IsGroup a
      → HaveLength k waiting
      → Works x k taken p
      → (p' : ActiveMpcController) × (add_votes p (votes_at a x waiting) ≡ some p')
        × Works x k (taken ++ waiting) p'
  unfolding add_votes
  add_votes-Works x k taken [] p group len s = (
    record p { state_channel = [] },
    refl,
    record {
      open_vote = s.open_vote;
      arithmetic = s.arithmetic;
      sum =
          subst (λ vs. Taken x k vs (record p { state_channel = [] })) (sym (append_nil taken))
            (Taken-channel x k taken p [] s.sum);
    },
  )
  add_votes-Works x k taken (w ∷ ws) p group len s =
      let (p1, e1, s1) = add_vote-Works x k taken p w group len.0 s in
      let (p2, e2, s2) = add_votes-Works x k (taken ++ w ∷ []) ws p1 group len.1 s1 in
      (p2, rw (s.open_vote, e1) e2, subst (λ vs. Works x k vs p2) (append_snoc taken w ws) s2)
