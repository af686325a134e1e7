-- ===== src/Sharing/Interpolation.antt =====
-- Lagrange interpolation at 0 over the residues modulo q, with q - 1 for -1. A point comes with the
-- weight by which the value there is multiplied.
use digital_election_system.Common.{
  ℕ, zero, suc, ◌+◌, ◌*◌, ◌≤◌, ◌≡◌, refl, ap, List, [], ◌∷◌, arith, length,
}
use digital_election_system.Number.Congruence.{
  Cong, Cong-of_eq, Cong-of_multiples, ◌⊙◌, Cong-add, Cong-mul_left, Cong-mul_cancel,
}

-- c₀ + c₁ x + c₂ x² + …, by Horner's rule.
unfoldable pub eval : List ℕ → ℕ → ℕ
eval [] x = 0
eval (c ∷ cs) x = c + x * eval cs x

-- The quotient of a polynomial by X - y.
quotient : ℕ → List ℕ → List ℕ
quotient y [] = []
quotient y (c ∷ []) = []
quotient y (c ∷ d ∷ cs) = eval (d ∷ cs) y ∷ quotient y (d ∷ cs)

length-quotient : (y n : ℕ) (cs : List ℕ) → length cs ≤ suc n → length (quotient y cs) ≤ n
unfolding quotient
length-quotient y n [] h = omega arith
length-quotient y n (c ∷ []) h = omega arith
length-quotient y zero (c ∷ d ∷ cs) h = absurd (omega arith)
length-quotient y (suc n) (c ∷ d ∷ cs) h = omega (arith, length-quotient y n (d ∷ cs))

-- f(x) + y g(x) ≡ f(y) + x g(x), for g the quotient.
quotient_lem :
    (x y : ℕ) (cs : List ℕ)
    → eval cs x + y * eval (quotient y cs) x ≡ eval cs y + x * eval (quotient y cs) x
unfolding quotient eval
quotient_lem x y [] = omega arith
quotient_lem x y (c ∷ []) = omega arith
quotient_lem x y (c ∷ d ∷ cs) = omega (arith, ap (λ (t : ℕ). x * t) (quotient_lem x y (d ∷ cs)))

pub record Weighted : Type 0 where
  pub point : ℕ
  pub weight : ℕ

-- Σ weight * f(point)
unfoldable pub weighted_sum : (ℕ → ℕ) → List Weighted → ℕ
weighted_sum f [] = 0
weighted_sum f (w ∷ ws) = w.weight * f w.point + weighted_sum f ws

module _ (p : ℕ) where
  -- Each weight is c Π (-xⱼ) / Π (x - xⱼ) over the other points xⱼ. Of the points before those of the
  -- list, d x is Π (x - xⱼ) and n is Π (-xⱼ).
  unfoldable pub factors : List Weighted → ℕ → ℕ
  factors [] x = 1
  factors (w ∷ ws) x = (x + p * w.point) * factors ws x

  unfoldable pub negated : List Weighted → ℕ
  negated [] = 1
  negated (w ∷ ws) = p * w.point * negated ws

  abbrev pub IsLagrange : ℕ → (ℕ → ℕ) → ℕ → List Weighted → Type 0
  IsLagrange c d n [] = Unit {0}
  IsLagrange c d n (w ∷ ws) =
      Cong (suc p) (w.weight * (d w.point * factors ws w.point)) (c * (n * negated ws))
      × IsLagrange c (λ x. d x * (x + p * w.point)) (n * (p * w.point)) ws

  -- Differences of two points have inverses.
  abbrev pub HasInverse : ℕ → Type 0
  HasInverse a = (b : ℕ) × Cong (suc p) (a * b) 1

  abbrev pub Apart : ℕ → List Weighted → Type 0
  Apart x [] = Unit {0}
  Apart x (w ∷ ws) = HasInverse (w.point + p * x) × Apart x ws

  abbrev pub AreApart : List Weighted → Type 0
  AreApart [] = Unit {0}
  AreApart (w ∷ ws) = Apart w.point ws × AreApart ws

  -- Moves the factor of a removed point y into the weights.
  without : ℕ → List Weighted → List Weighted
  without y [] = []
  without y (w ∷ ws) =
      record { point = w.point; weight = w.weight * (w.point + p * y) } ∷ without y ws

  factors-without : (y x : ℕ) (ws : List Weighted) → factors (without y ws) x ≡ factors ws x
  unfolding factors without
  factors-without y x [] = refl
  factors-without y x (w ∷ ws) = ap (λ (t : ℕ). (x + p * w.point) * t) (factors-without y x ws)

  negated-without : (y : ℕ) (ws : List Weighted) → negated (without y ws) ≡ negated ws
  unfolding negated without
  negated-without y [] = refl
  negated-without y (w ∷ ws) = ap (λ (t : ℕ). p * w.point * t) (negated-without y ws)

  length-without : (y : ℕ) (ws : List Weighted) → length (without y ws) ≡ length ws
  unfolding without
  length-without y [] = refl
  length-without y (w ∷ ws) = ap suc (length-without y ws)

  Apart-without : (x y : ℕ) (ws : List Weighted) → Apart x ws → Apart x (without y ws)
  unfolding without
  Apart-without x y [] h = tt
  Apart-without x y (w ∷ ws) h = (h.0, Apart-without x y ws h.1)

  AreApart-without : (y : ℕ) (ws : List Weighted) → AreApart ws → AreApart (without y ws)
  unfolding without
  AreApart-without y [] h = tt
  AreApart-without y (w ∷ ws) h = (Apart-without w.point y ws h.0, AreApart-without y ws h.1)

  IsLagrange-without :
      (c y n n' : ℕ) (d d' : ℕ → ℕ) (ws : List Weighted)
      → ((x : ℕ) → d' x ≡ d x * (x + p * y))
      → n' ≡ n * (p * y)
      → IsLagrange c d' n' ws
      → IsLagrange (c * (p * y)) d n (without y ws)
  unfolding without
  IsLagrange-without c y n n' d d' [] ed en h = tt
  IsLagrange-without c y n n' d d' (w ∷ ws) ed en h = (
    Cong-of_eq (
          omega (
            arith,
            ap (λ (t : ℕ). w.weight * (w.point + p * y) * (d w.point * t))
                (factors-without y w.point ws),
            ap (λ (t : ℕ). w.weight * (t * factors ws w.point)) (ed w.point),
          ))
        ⊙ h.0
        ⊙ Cong-of_eq (
            omega (
              arith,
              ap (λ (t : ℕ). c * (p * y) * (n * t)) (negated-without y ws),
              ap (λ (t : ℕ). c * (t * negated ws)) en,
            )),
    IsLagrange-without c y (n * (p * w.point)) (n' * (p * w.point)) (λ x. d x * (x + p * w.point))
        (λ x. d' x * (x + p * w.point)) ws
        (λ x. omega (arith, ap (λ (t : ℕ). t * (x + p * w.point)) (ed x)))
        (omega (arith, ap (λ (t : ℕ). t * (p * w.point)) en)) h.1,
  )

  sum_one-without :
      (y : ℕ) (ws : List Weighted)
      → weighted_sum (λ x. 1) (without y ws)
        ≡ weighted_sum (λ x. x) ws + p * y * weighted_sum (λ x. 1) ws
  unfolding weighted_sum without
  sum_one-without y [] = omega arith
  sum_one-without y (w ∷ ws) = omega (arith, sum_one-without y ws)

  -- Two points u and v with Σ w (x - u) ≡ -c u and Σ w (x - v) ≡ -c v, so Σ w ≡ c.
  sum_from_two :
      (c s t u v : ℕ)
      → HasInverse (v + p * u)
      → Cong (suc p) (t + p * u * s) (c * (p * u))
      → Cong (suc p) (t + p * v * s) (c * (p * v))
      → Cong (suc p) s c
  sum_from_two c s t u v (b, inverse) eu ev = Cong-mul_cancel (v + p * u) b s c inverse (
      Cong-of_multiples _ (t + p * u * s + p * (t + p * v * s)) (t + p * v * s) (v * s)
        (omega arith)
      ⊙ Cong-add eu (Cong-mul_left p ev)
      ⊙ Cong-of_multiples _ _ (c * v) (p * c * v) (omega arith))

  -- The term of a point y itself is 0 in the sum that lacks y.
  first_removed :
      (c : ℕ) (u : Weighted) (ws : List Weighted)
      → Cong (suc p) (weighted_sum (λ x. 1) (without u.point ws)) (c * (p * u.point))
      → Cong
          (suc p)
          (weighted_sum (λ x. x) (u ∷ ws) + p * u.point * weighted_sum (λ x. 1) (u ∷ ws))
          (c * (p * u.point))
  unfolding weighted_sum
  first_removed c u ws h =
      Cong-of_multiples _ (weighted_sum (λ x. 1) (without u.point ws)) 0 (u.weight * u.point)
        (omega (arith, sum_one-without u.point ws))
      ⊙ h

  second_removed :
      (c : ℕ) (u v : Weighted) (ws : List Weighted)
      → Cong (suc p) (weighted_sum (λ x. 1) (without v.point (u ∷ ws))) (c * (p * v.point))
      → Cong
          (suc p)
          (weighted_sum (λ x. x) (u ∷ v ∷ ws) + p * v.point * weighted_sum (λ x. 1) (u ∷ v ∷ ws))
          (c * (p * v.point))
  unfolding weighted_sum without
  second_removed c u v ws h =
      Cong-of_multiples _ (weighted_sum (λ x. 1) (without v.point (u ∷ ws))) 0 (v.weight * v.point)
        (omega (arith, sum_one-without v.point ws))
      ⊙ h

  IsLagrange-first_removed :
      (c : ℕ) (u : Weighted) (ws : List Weighted)
      → IsLagrange c (λ x. 1) 1 (u ∷ ws)
      → IsLagrange (c * (p * u.point)) (λ x. 1) 1 (without u.point ws)
  IsLagrange-first_removed c u ws h =
      IsLagrange-without c u.point 1 (1 * (p * u.point)) (λ x. 1) (λ x. 1 * (x + p * u.point)) ws
        (λ x. refl) refl h.1

  IsLagrange-second_removed :
      (c : ℕ) (u v : Weighted) (ws : List Weighted)
      → IsLagrange c (λ x. 1) 1 (u ∷ v ∷ ws)
      → IsLagrange (c * (p * v.point)) (λ x. 1) 1 (without v.point (u ∷ ws))
  unfolding factors negated without
  IsLagrange-second_removed c u v ws h = (
    Cong-of_eq (
          omega (
            arith,
            ap (λ (t : ℕ). u.weight * (u.point + p * v.point) * t)
                (factors-without v.point u.point ws),
          ))
        ⊙ h.0
        ⊙ Cong-of_eq
            (omega (arith, ap (λ (t : ℕ). c * (p * v.point) * t) (negated-without v.point ws))),
    IsLagrange-without c v.point (1 * (p * u.point)) (1 * (p * u.point) * (p * v.point))
        (λ x. 1 * (x + p * u.point)) (λ x. 1 * (x + p * u.point) * (x + p * v.point)) ws (λ x. refl)
        refl h.1.1,
  )

  -- The weights of one point or more add up to c.
  unity :
      (k c : ℕ) (ws : List Weighted)
      → length ws ≡ suc k
      → AreApart ws
      → IsLagrange c (λ x. 1) 1 ws
      → Cong (suc p) (weighted_sum (λ x. 1) ws) c
  unfolding weighted_sum factors negated without
  unity k c [] e a h = absurd (omega arith)
  unity k c (w ∷ []) e a h = Cong-of_eq (omega arith) ⊙ h.0 ⊙ Cong-of_eq (omega arith)
  unity zero c (u ∷ v ∷ ws) e a h = absurd (omega arith)
  unity (suc k) c (u ∷ v ∷ ws) e a h =
      sum_from_two c _ (weighted_sum (λ x. x) (u ∷ v ∷ ws)) u.point v.point a.0.0
        (first_removed c u (v ∷ ws) (
          unity k _ (without u.point (v ∷ ws)) (omega (arith, length-without u.point ws))
            (AreApart-without u.point (v ∷ ws) a.1) (IsLagrange-first_removed c u (v ∷ ws) h)))
        (second_removed c u v ws (
          unity k _ (without v.point (u ∷ ws)) (omega (arith, length-without v.point ws))
            (AreApart-without v.point (u ∷ ws) (a.0.1, a.1.1))
            (IsLagrange-second_removed c u v ws h)))

  split_sum :
      (y : ℕ) (cs : List ℕ) (ws : List Weighted)
      → weighted_sum (eval cs) ws + suc p * (y * weighted_sum (eval (quotient y cs)) ws)
        ≡ eval cs y * weighted_sum (λ x. 1) ws + weighted_sum (eval (quotient y cs)) (without y ws)
  unfolding weighted_sum without
  split_sum y cs [] = omega arith
  split_sum y cs (w ∷ ws) =
      omega (arith, split_sum y cs ws, ap (λ (t : ℕ). w.weight * t) (quotient_lem w.point y cs))

  -- The weighted sum of a polynomial's values at more points than its degree is c times its value
  -- at 0.
  pub interpolate :
      (k c : ℕ) (cs : List ℕ) (ws : List Weighted)
      → length ws ≡ k
      → length cs ≤ k
      → AreApart ws
      → IsLagrange c (λ x. 1) 1 ws
      → Cong (suc p) (weighted_sum (eval cs) ws) (c * eval cs 0)
  unfolding weighted_sum eval without
  interpolate zero c [] [] e l a h = Cong-of_eq (omega arith)
  interpolate zero c (d ∷ cs) ws e l a h = absurd (omega arith)
  interpolate zero c cs (w ∷ ws) e l a h = absurd (omega arith)
  interpolate (suc k) c cs [] e l a h = absurd (omega arith)
  interpolate (suc k) c cs (w ∷ ws) e l a h =
      Cong-of_multiples _ _ (w.point * weighted_sum (eval (quotient w.point cs)) (w ∷ ws)) 0
        (omega (arith, split_sum w.point cs (w ∷ ws)))
      ⊙ Cong-add {c = weighted_sum (eval (quotient w.point cs)) (without w.point (w ∷ ws))}
          (Cong-mul_left (eval cs w.point) (unity k c (w ∷ ws) e a h))
          (Cong-of_multiples _ (weighted_sum (eval (quotient w.point cs)) (without w.point ws)) 0
              (w.weight * w.point * eval (quotient w.point cs) w.point) (omega arith)
            ⊙ interpolate k (c * (p * w.point)) (quotient w.point cs) (without w.point ws)
                (omega (arith, length-without w.point ws)) (length-quotient w.point k cs l)
                (AreApart-without w.point ws a.1) (IsLagrange-first_removed c w ws h))
      ⊙ Cong-of_multiples _ _ 0 (c * (w.point * eval (quotient w.point cs) 0))
          (omega (arith, ap (λ (t : ℕ). c * t) (quotient_lem 0 w.point cs)))
