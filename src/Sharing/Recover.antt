-- ===== src/Sharing/Recover.antt =====
-- server/src/SecretSharingImpl.go: the value that reconstruct computes.
use digital_election_system.Common.{
  ℕ, zero, suc, ◌+◌, ◌*◌, ◌%◌, ◌≤◌, ◌<◌, ◌≡◌, refl, sym, ap, ◌∙◌, none, some, false, List, [], ◌∷◌,
  ◌++◌, arith, length, All, leb, ℤ, pos, ◌+ℤ◌, ◌*ℤ◌,
}
use digital_election_system.Number.Congruence.{
  Cong, Cong-of_eq, ◌⊙◌, Cong-mul, Cong-add, Cong-add_left, Cong-add_right,
}
use digital_election_system.Number.Residue.{residue, residue_pos, residue-*, residue-+, emod-eq}
use digital_election_system.Number.Prime.{IsPrime, Inverse}
use digital_election_system.Framework.{Share}
use digital_election_system.Sharing.Interpolation.{
  eval, Weighted, weighted_sum, factors, negated, IsLagrange, interpolate,
}
use digital_election_system.Sharing.Lagrange.{differences, negations, lagrange_lem}
use digital_election_system.Sharing.Points.{
  Differs, Distinct, Match, length-Match, factors-Match, negated-Match, AreApart-Match, Follow,
  Follow-append, differences-append, negations-append, differences-last, negations-last,
  differences-Inverse, Inverse-mul,
}
use digital_election_system.Sharing.{points, reconstruct_loop, reconstruct}

-- A share holds the value of the polynomial at its point.
abbrev pub LiesOn : ℕ → List ℕ → Share → Type 0
LiesOn q cs v = Cong q (residue q v.s) (eval cs (residue q v.point))

module _ (p : ℕ) where
  abbrev q : ℕ
  q = suc p

  -- What the loop has done when it ends: it has taken a weighted sum of the values.
  record Summed (cs : List ℕ) (d : ℕ → ℕ) (n : ℕ) (result : ℤ) (before : List ℤ)
      (shares : List Share) : Type 0 where
    ws : List Weighted
    sum : ℤ
    returns : reconstruct_loop q result before shares ≡ some sum
    value : Cong q (residue q sum) (weighted_sum (eval cs) ws + residue q result)
    weights : IsLagrange p 1 d n ws
    match : Match p ws shares

  add_term :
      (delta x : ℕ) (v r : ℤ)
      → Cong q (residue q v) x
      → Cong q (residue q (pos delta *ℤ v +ℤ r)) (delta * x + residue q r)
  add_term delta x v r e =
      residue-+ q (pos delta *ℤ v) r (omega arith)
      ⊙ Cong-add_right (residue q r)
          (residue-* q (pos delta) v (omega arith) ⊙ Cong-mul (Cong-of_eq (residue_pos q delta)) e)

  others :
      (v : Share) (before : List ℤ) (vs : List Share)
      → IsPrime q
      → Inverse q (differences p before (residue q v.point))
      → Differs q v.point vs
      → Inverse q (differences p (before ++ points vs) (residue q v.point))
  others v before vs prime f h =
      rw (differences-append p before (points vs) (residue q v.point))
        (Inverse-mul p _ _ f (differences-Inverse p v.point vs prime h))

  weight_left :
      (delta : ℕ) (d : ℕ → ℕ) (v : Share) (before : List ℤ) (vs : List Share) (ws : List Weighted)
      → ((x : ℕ) → d x ≡ differences p before x)
      → Match p ws vs
      → delta * (d (residue q v.point) * factors p ws (residue q v.point))
        ≡ delta * differences p (before ++ points vs) (residue q v.point)
  weight_left delta d v before vs ws ed m =
      rw
        (
          ed (residue q v.point),
          factors-Match p ws vs (residue q v.point) m,
          differences-append p before (points vs) (residue q v.point),
        )
        refl

  weight_right :
      (n : ℕ) (before : List ℤ) (vs : List Share) (ws : List Weighted)
      → n ≡ negations p before
      → Match p ws vs
      → negations p (before ++ points vs) ≡ 1 * (n * negated p ws)
  weight_right n before vs ws en m =
      rw (en, negated-Match p ws vs m, negations-append p before (points vs)) (omega arith)

  -- The loop ends for every list of shares at different points.
  summed :
      (cs : List ℕ) (d : ℕ → ℕ) (n : ℕ) (result : ℤ) (before : List ℤ) (shares : List Share)
      → IsPrime q
      → ((x : ℕ) → d x ≡ differences p before x)
      → n ≡ negations p before
      → Follow p before shares
      → Distinct q shares
      → All (LiesOn q cs) shares
      → Summed cs d n result before shares
  unfolding reconstruct_loop weighted_sum points
  summed cs d n result before [] prime ed en f h on = record {
    ws = [];
    sum = result;
    returns = refl;
    value = Cong-of_eq (omega arith);
    weights = tt;
    match = tt;
  }
  summed cs d n result before (v ∷ vs) prime ed en f h on =
      let (delta, e, c) =
        lagrange_lem p v.point (before ++ points vs) (others v before vs prime f.0 h.0) in
      let rest =
        summed cs (λ x. d x * (x + p * residue q v.point)) (n * (p * residue q v.point))
          (pos delta *ℤ v.s +ℤ result) (before ++ v.point ∷ []) vs prime
          (λ x.
            ap (λ (t : ℕ). t * (x + p * residue q v.point)) (ed x)
            ∙ sym (differences-last p before v.point x))
          (ap (λ (t : ℕ). t * (p * residue q v.point)) en ∙ sym (negations-last p before v.point))
          (Follow-append p before v.point vs prime f.1 h.0) h.1 on.1 in
      record {
        ws = record { point = residue q v.point; weight = delta } ∷ rest.ws;
        sum = rest.sum;
        returns = rw e rest.returns;
        value =
            rest.value
            ⊙ (Cong-add_left (weighted_sum (eval cs) rest.ws)
                  (add_term delta (eval cs (residue q v.point)) v.s result on.0)
                ⊙ Cong-of_eq (omega arith));
        weights = (
          Cong-of_eq (weight_left delta d v before vs rest.ws ed rest.match)
              ⊙ c
              ⊙ Cong-of_eq (weight_right n before vs rest.ws en rest.match),
          rest.weights,
        );
        match = (refl, rest.match);
      }

  -- At the start no point came before.
  Follow-nothing : (shares : List Share) → Follow p [] shares
  unfolding differences
  Follow-nothing [] = tt
  Follow-nothing (v ∷ vs) = ((1, Cong-of_eq refl), Follow-nothing vs)

  pub reconstruct_at :
      (cs : List ℕ) (shares : List Share) (t : ℕ)
      → IsPrime q
      → t < length shares
      → length cs ≤ length shares
      → Distinct q shares
      → All (LiesOn q cs) shares
      → reconstruct shares t q ≡ some (eval cs 0 % q)
  unfolding reconstruct differences negations
  reconstruct_at cs shares t prime enough degree h on =
      let s =
        summed cs (λ x. 1) 1 (pos 0) [] shares prime (λ x. refl) refl (Follow-nothing shares) h
          on in
      rw (above (length shares) t enough, s.returns)
        (ap some (
          emod-eq q s.sum (omega arith)
          ∙ (s.value
              ⊙ Cong-add
                  (interpolate p (length shares) 1 cs s.ws (length-Match p s.ws shares s.match)
                    degree (AreApart-Match p s.ws shares prime s.match h) s.weights)
                  (Cong-of_eq (residue_pos q 0))
              ⊙ Cong-of_eq (omega arith)).same))
    where
      above : (n t : ℕ) → t < n → leb n t ≡ false
      above n t h = ground arith

-- For a prime q and shares at points that differ modulo q, more than t of them and no fewer than the
-- coefficients of a polynomial on which they lie, reconstruct returns the polynomial's value at 0,
-- modulo q.
pub reconstruct_lem :
    (q : ℕ) (cs : List ℕ) (shares : List Share) (t : ℕ)
    → IsPrime q
    → t < length shares
    → length cs ≤ length shares
    → Distinct q shares
    → All (LiesOn q cs) shares
    → reconstruct shares t q ≡ some (eval cs 0 % q)
reconstruct_lem zero cs shares t prime = absurd (omega (arith, prime.big))
reconstruct_lem (suc p) cs shares t prime = reconstruct_at p cs shares t prime

-- With t shares or fewer it panics.
pub reconstruct_too_few :
    (q : ℕ) (shares : List Share) (t : ℕ) → length shares ≤ t → reconstruct shares t q ≡ none
unfolding reconstruct
reconstruct_too_few q shares t h = ground arith
