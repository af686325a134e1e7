-- ===== src/Controller/Adding.antt =====
-- server/src/MPCControllerImpl.go: one server that adds the votes delivered to it to its state.
use digital_election_system.Common.{
  ℕ, zero, suc, ◌+◌, ◌*◌, ◌≤◌, ◌≡◌, refl, sym, ap, ◌∙◌, none, some, ◌>>=◌, List, [], ◌∷◌, arith,
  length, ℤ, pos, ◌+ℤ◌,
}
use digital_election_system.Number.Congruence.{Cong-of_eq, ◌⊙◌, Cong-add}
use digital_election_system.Number.Residue.{residue, residue-+}
use digital_election_system.Number.{emod}
use digital_election_system.Framework.{Share, voting}
use digital_election_system.Commitment.{ActiveSecretSharing}
use digital_election_system.Commitment.Setup.{IsGroup}
use digital_election_system.Sharing.Interpolation.{eval}
use digital_election_system.Sharing.Dealing.{share_at}
use digital_election_system.Sharing.Recover.{LiesOn}
use digital_election_system.Sharing.RoundTrip.{share_at-LiesOn}
use digital_election_system.Arithmetic.Homomorphism.{
  validate_same, residue-emod, multiply_proofs_lem, appended-some,
}
use digital_election_system.Arithmetic.{new_arithmetic, add}
use digital_election_system.Controller.{
  ChanStruct, ActiveMpcController, new_active_mpc_controller, add_vote, add_votes, add_share,
}

-- A vote: the coefficients of its two polynomials, its id and its commitments.
pub record Vote : Type 0 where
  pub fs : List ℕ
  pub gs : List ℕ
  pub id : ℕ
  pub proof : List ℤ

-- The sum of two polynomials.
unfoldable pub poly_add : List ℕ → List ℕ → List ℕ
poly_add [] gs = gs
poly_add (f ∷ fs) [] = f ∷ fs
poly_add (f ∷ fs) (g ∷ gs) = (f + g) ∷ poly_add fs gs

pub eval-poly_add : (x : ℕ) (fs gs : List ℕ) → eval (poly_add fs gs) x ≡ eval fs x + eval gs x
unfolding eval poly_add
eval-poly_add x [] gs = omega arith
eval-poly_add x (f ∷ fs) [] = omega arith
eval-poly_add x (f ∷ fs) (g ∷ gs) = omega (arith, ap (λ (t : ℕ). x * t) (eval-poly_add x fs gs))

pub length-poly_add :
    (n : ℕ) (fs gs : List ℕ) → length fs ≤ n → length gs ≤ n → length (poly_add fs gs) ≤ n
unfolding poly_add
length-poly_add n [] gs h k = k
length-poly_add n (f ∷ fs) [] h k = h
length-poly_add zero (f ∷ fs) (g ∷ gs) h k = absurd (omega arith)
length-poly_add (suc n) (f ∷ fs) (g ∷ gs) h k =
    omega (arith, length-poly_add n fs gs (omega arith) (omega arith))

module _ (a : ActiveSecretSharing) where
  -- What the network delivers of a vote to the server at the point x.
  abbrev pub vote_at : ℕ → Vote → ChanStruct
  vote_at x v = record { share = share_at a v.id v.fs v.gs x; proof = some v.proof }

  abbrev pub votes_at : ℕ → List Vote → List ChanStruct
  votes_at x [] = []
  votes_at x (v ∷ vs) = vote_at x v ∷ votes_at x vs

  -- The polynomial of a state to which the votes were added.
  unfoldable pub total : List ℕ → List Vote → List ℕ
  total cs [] = cs
  total cs (v ∷ vs) = total (poly_add v.fs cs) vs

  -- The state of a server that has added a vote or more, with k commitments.
  pub record Holds (x k : ℕ) (cs : List ℕ) (p : ActiveMpcController) : Type 0 where
    pub arithmetic : p.arithmetic ≡ new_arithmetic a.prime_p a.prime_q
    pub open_vote : p.state.network ≡ voting
    pub proof : List ℤ
    pub has_proof : p.state.proof ≡ some proof
    pub proof_length : length proof ≡ suc k
    pub at_point : p.state.share.point ≡ pos x
    pub on : LiesOn a.prime_q cs p.state.share

  pub add_vote-Holds :
      (x k : ℕ) (cs : List ℕ) (p : ActiveMpcController) (v : Vote)
      → IsGroup a
      → length v.proof ≡ suc k
      → Holds x k cs p
      → (p' : ActiveMpcController) × (add_vote p (vote_at x v) ≡ some p')
        × Holds x k (poly_add v.fs cs) p'
  unfolding add_vote add
  add_vote-Holds x k cs p v group len s =
      let (pc, made, _, len') =
        multiply_proofs_lem a.prime_p x 0 v.proof s.proof (omega (arith, group.p_big))
          (len ∙ sym s.proof_length) in
      (
        record p {
          state = record {
            share = record {
              s = pos (emod ((vote_at x v).share.s +ℤ p.state.share.s) a.prime_q);
              t = pos (emod ((vote_at x v).share.t +ℤ p.state.share.t) a.prime_q);
              point = pos x;
              id = v.id;
            };
            proof = some pc;
            network = p.state.network;
          };
        },
        rw
            (
              s.arithmetic,
              s.has_proof,
              validate_same (vote_at x v).share p.state.share (sym s.at_point),
              made,
              appended-some pc k (len' ∙ len),
            )
            refl,
        record {
          arithmetic = s.arithmetic;
          open_vote = s.open_vote;
          proof = pc;
          has_proof = refl;
          proof_length = len' ∙ len;
          at_point = refl;
          on =
              residue-emod a.prime_q ((vote_at x v).share.s +ℤ p.state.share.s)
                (omega (arith, group.q_big))
              ⊙ residue-+ a.prime_q (vote_at x v).share.s p.state.share.s
                  (omega (arith, group.q_big))
              ⊙ Cong-add (share_at-LiesOn a v.id x v.fs v.gs)
                  (s.on ⊙ Cong-of_eq (ap (λ z. eval cs (residue a.prime_q z)) s.at_point))
              ⊙ Cong-of_eq (sym (eval-poly_add (residue a.prime_q (pos x)) v.fs cs));
        },
      )

  abbrev pub HasProofs : ℕ → List Vote → Type 0
  HasProofs k [] = Unit {0}
  HasProofs k (v ∷ vs) = (length v.proof ≡ suc k) × HasProofs k vs

  add_votes-Holds :
      (x k : ℕ) (cs : List ℕ) (p : ActiveMpcController) (vs : List Vote)
      → IsGroup a
      → HasProofs k vs
      → Holds x k cs p
      → (p' : ActiveMpcController) × (add_votes p (votes_at x vs) ≡ some p')
        × Holds x k (total cs vs) p'
  unfolding add_votes total
  add_votes-Holds x k cs p [] group len s = (
    record p { state_channel = [] },
    refl,
    record {
      arithmetic = s.arithmetic;
      open_vote = s.open_vote;
      proof = s.proof;
      has_proof = s.has_proof;
      proof_length = s.proof_length;
      at_point = s.at_point;
      on = s.on;
    },
  )
  add_votes-Holds x k cs p (v ∷ vs) group len s =
      let (p', e, s') = add_vote-Holds x k cs p v group len.0 s in
      let (p'', e', s'') = add_votes-Holds x k (poly_add v.fs cs) p' vs group len.1 s' in
      (p'', rw (s.open_vote, add_votes, e) e', s'')

  -- A server at the point x, with the votes that it will take.
  abbrev pub server_at : Share → ℕ → List Vote → ActiveMpcController
  server_at start x vs =
      record (new_active_mpc_controller (new_arithmetic a.prime_p a.prime_q)
        (record start { point = pos x }) none) { state_channel = votes_at x vs }

  -- The start share comes without commitments, so the first vote takes its place.
  first_vote-Holds :
      (start : Share) (x k : ℕ) (v : Vote) (rest : List ChanStruct)
      → IsGroup a
      → length v.proof ≡ suc k
      → let p =
          record (new_active_mpc_controller
            (new_arithmetic a.prime_p a.prime_q)
            (record start { point = pos x })
            none) { state_channel = rest } in
        (p' : ActiveMpcController) × (add_vote p (vote_at x v) ≡ some p') × Holds x k v.fs p'
  unfolding add_vote add new_active_mpc_controller
  first_vote-Holds start x k v rest group len = (
    record {
      arithmetic = new_arithmetic a.prime_p a.prime_q;
      state = record { share = (vote_at x v).share; proof = some v.proof; network = voting };
      state_channel = rest;
      start_share = record start { point = pos x };
      verified_shares = [];
    },
    rw (validate_same (vote_at x v).share (record start { point = pos x }) refl) refl,
    record {
      arithmetic = refl;
      open_vote = refl;
      proof = v.proof;
      has_proof = refl;
      proof_length = len;
      at_point = refl;
      on = share_at-LiesOn a v.id x v.fs v.gs;
    },
  )

  pub server-Holds :
      (start : Share) (x k : ℕ) (v : Vote) (vs : List Vote)
      → IsGroup a
      → HasProofs k (v ∷ vs)
      → (p' : ActiveMpcController) × (add_share (server_at start x (v ∷ vs)) ≡ some p')
        × Holds x k (total v.fs vs) p'
  unfolding add_share add_votes new_active_mpc_controller
  server-Holds start x k v vs group len =
      let (p, e, s) = first_vote-Holds start x k v (votes_at x (v ∷ vs)) group len.0 in
      let (p', e', s') = add_votes-Holds x k v.fs p vs group len.1 s in
      (p', ap (λ o. o >>= λ p'. add_votes p' (votes_at x vs)) e ∙ e', s')
