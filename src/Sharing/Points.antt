-- ===== src/Sharing/Points.antt =====
-- The points of the shares given to Reconstruct: where they differ modulo a prime, their differences
-- have inverses.
use digital_election_system.Common.{
  ℕ, suc, ◌+◌, ◌*◌, ◌%◌, ◌≡◌, ◌≢◌, refl, sym, ap, ◌∙◌, List, [], ◌∷◌, ◌++◌, arith, length, ℤ,
}
use digital_election_system.Number.Congruence.{
  Cong, Cong-of_eq, Cong-of_multiples, ◌⊙◌, Cong-mul, Cong-add_right,
}
use digital_election_system.Number.Residue.{residue}
use digital_election_system.Number.Prime.{IsPrime, Inverse, prime-Inverse}
use digital_election_system.Framework.{Share}
use digital_election_system.Sharing.Interpolation.{
  eval, Weighted, factors, negated, Apart, AreApart,
}
use digital_election_system.Sharing.Lagrange.{differences, negations}
use digital_election_system.Sharing.{points}

-- The points of the shares differ modulo q.
abbrev pub Differs : ℕ → ℤ → List Share → Type 0
Differs q x [] = Unit {0}
Differs q x (v ∷ vs) = (residue q v.point % q ≢ residue q x % q) × Differs q x vs

abbrev pub Distinct : ℕ → List Share → Type 0
Distinct q [] = Unit {0}
Distinct q (v ∷ vs) = Differs q v.point vs × Distinct q vs

-- A share holds the value of the polynomial at its point.
abbrev pub LiesOn : ℕ → List ℕ → Share → Type 0
LiesOn q cs v = Cong q (residue q v.s) (eval cs (residue q v.point))

module _ (p : ℕ) where
  abbrev pub q : ℕ
  q = suc p

  pub Inverse-mul : (a b : ℕ) → Inverse q a → Inverse q b → Inverse q (a * b)
  Inverse-mul a b (u, eu) (v, ev) =
      (u * v, Cong-of_eq (omega arith) ⊙ Cong-mul eu ev ⊙ Cong-of_eq (omega arith))

  Inverse-reverse : (x y : ℕ) → Inverse q (y + p * x) → Inverse q (x + p * y)
  Inverse-reverse x y (b, e) =
      (p * b, Cong-of_multiples _ ((y + p * x) * b) (y * b) (p * (y * b)) (omega arith) ⊙ e)

  Differs-Inverse : (x y : ℕ) → IsPrime q → y % q ≢ x % q → Inverse q (y + p * x)
  Differs-Inverse x y prime h = prime-Inverse q (y + p * x) prime λ e. h (same e)
    where
      zero_mod : 0 % q ≡ 0
      zero_mod = omega arith

      same : (y + p * x) % q ≡ 0 → y % q ≡ x % q
      same e =
          (Cong-of_multiples y (y + p * x + x) x 0 (omega arith)
            ⊙ Cong-add_right x {a = y + p * x} {b = 0} (record { same = e ∙ sym zero_mod })
            ⊙ Cong-of_eq (omega arith)).same

  pub differences-append :
      (js ks : List ℤ) (x : ℕ)
      → differences p (js ++ ks) x ≡ differences p js x * differences p ks x
  unfolding differences
  differences-append [] ks x = omega arith
  differences-append (j ∷ js) ks x =
      omega (arith, ap (λ (t : ℕ). (x + p * residue q j) * t) (differences-append js ks x))

  pub negations-append : (js ks : List ℤ) → negations p (js ++ ks) ≡ negations p js * negations p ks
  unfolding negations
  negations-append [] ks = omega arith
  negations-append (j ∷ js) ks =
      omega (arith, ap (λ (t : ℕ). p * residue q j * t) (negations-append js ks))

  pub differences-last :
      (js : List ℤ) (j : ℤ) (x : ℕ)
      → differences p (js ++ j ∷ []) x ≡ differences p js x * (x + p * residue q j)
  unfolding differences
  differences-last js j x = differences-append js (j ∷ []) x ∙ omega arith

  pub negations-last :
      (js : List ℤ) (j : ℤ) → negations p (js ++ j ∷ []) ≡ negations p js * (p * residue q j)
  unfolding negations
  negations-last js j = negations-append js (j ∷ []) ∙ omega arith

  -- The weighted points are the residues of the points of the shares.
  abbrev pub Match : List Weighted → List Share → Type 0
  Match [] [] = Unit {0}
  Match [] (v ∷ vs) = ⊥
  Match (w ∷ ws) [] = ⊥
  Match (w ∷ ws) (v ∷ vs) = (w.point ≡ residue q v.point) × Match ws vs

  pub length-Match : (ws : List Weighted) (vs : List Share) → Match ws vs → length ws ≡ length vs
  length-Match [] [] m = refl
  length-Match [] (v ∷ vs) m = absurd m
  length-Match (w ∷ ws) [] m = absurd m
  length-Match (w ∷ ws) (v ∷ vs) m = ap suc (length-Match ws vs m.1)

  pub factors-Match :
      (ws : List Weighted) (vs : List Share) (x : ℕ)
      → Match ws vs
      → factors p ws x ≡ differences p (points vs) x
  unfolding factors differences points
  factors-Match [] [] x m = refl
  factors-Match [] (v ∷ vs) x m = absurd m
  factors-Match (w ∷ ws) [] x m = absurd m
  factors-Match (w ∷ ws) (v ∷ vs) x m = rw (m.0, factors-Match ws vs x m.1) refl

  pub negated-Match :
      (ws : List Weighted) (vs : List Share) → Match ws vs → negated p ws ≡ negations p (points vs)
  unfolding negated negations points
  negated-Match [] [] m = refl
  negated-Match [] (v ∷ vs) m = absurd m
  negated-Match (w ∷ ws) [] m = absurd m
  negated-Match (w ∷ ws) (v ∷ vs) m = rw (m.0, negated-Match ws vs m.1) refl

  Apart-Match :
      (x : ℤ) (ws : List Weighted) (vs : List Share)
      → IsPrime q
      → Match ws vs
      → Differs q x vs
      → Apart p (residue q x) ws
  Apart-Match x [] [] prime m h = tt
  Apart-Match x [] (v ∷ vs) prime m h = absurd m
  Apart-Match x (w ∷ ws) [] prime m h = absurd m
  Apart-Match x (w ∷ ws) (v ∷ vs) prime m h = (
    rw m.0 (Differs-Inverse (residue q x) (residue q v.point) prime h.0),
    Apart-Match x ws vs prime m.1 h.1,
  )

  pub AreApart-Match :
      (ws : List Weighted) (vs : List Share)
      → IsPrime q
      → Match ws vs
      → Distinct q vs
      → AreApart p ws
  AreApart-Match [] [] prime m h = tt
  AreApart-Match [] (v ∷ vs) prime m h = absurd m
  AreApart-Match (w ∷ ws) [] prime m h = absurd m
  AreApart-Match (w ∷ ws) (v ∷ vs) prime m h =
      (rw m.0 (Apart-Match v.point ws vs prime m.1 h.0), AreApart-Match ws vs prime m.1 h.1)

  -- A point that differs from those of the shares has invertible differences to them.
  pub differences-Inverse :
      (x : ℤ) (vs : List Share)
      → IsPrime q
      → Differs q x vs
      → Inverse q (differences p (points vs) (residue q x))
  unfolding differences points
  differences-Inverse x [] prime h = (1, Cong-of_eq refl)
  differences-Inverse x (v ∷ vs) prime h =
      Inverse-mul _ _
        (Inverse-reverse (residue q x) (residue q v.point)
          (Differs-Inverse (residue q x) (residue q v.point) prime h.0))
        (differences-Inverse x vs prime h.1)

  -- The points of the shares have invertible differences to the points before them.
  abbrev pub Follow : List ℤ → List Share → Type 0
  Follow before [] = Unit {0}
  Follow before (v ∷ vs) = Inverse q (differences p before (residue q v.point)) × Follow before vs

  pub Follow-append :
      (before : List ℤ) (x : ℤ) (vs : List Share)
      → IsPrime q
      → Follow before vs
      → Differs q x vs
      → Follow (before ++ x ∷ []) vs
  unfolding differences
  Follow-append before x [] prime f h = tt
  Follow-append before x (v ∷ vs) prime f h = (
    rw (differences-append before (x ∷ []) (residue q v.point)) (
        Inverse-mul (differences p before (residue q v.point)) _ f.0 (
          Inverse-mul _ 1 (Differs-Inverse (residue q x) (residue q v.point) prime h.0)
            (1, Cong-of_eq refl))),
    Follow-append before x vs prime f.1 h.1,
  )
