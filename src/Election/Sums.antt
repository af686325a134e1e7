-- ===== src/Election/Sums.antt =====
-- Sums over the ballots of an election, which do not depend on their order, and the polynomial that
-- shares them.
use mathlib.Core.List.{Permᴰ}
use digital_election_system.Common.{
  ℕ, suc, ◌+◌, ◌≤◌, ◌≡◌, refl, sym, ap, ap₂, ◌∙◌, subst, List, [], ◌∷◌, arith, length, map, All,
}
use digital_election_system.Sharing.Interpolation.{eval}
use digital_election_system.Controller.Adding.{Vote, poly_add, eval-poly_add, length-poly_add}
use digital_election_system.Controller.Moves.{sum_at}

pub All-perm {ℓ κ} : {A : Type ℓ} (P : A → Type κ) {l r : List A} → Permᴰ l r → All P r → All P l
All-perm P Permᴰ.nil h = tt
All-perm P (Permᴰ.cons e d) h = (subst P (sym e) h.0, All-perm P d h.1)
All-perm P (Permᴰ.swap e e') h = (subst P (sym e) h.1.0, (subst P (sym e') h.0, h.1.1))
All-perm P (Permᴰ.trans d d') h = All-perm P d (All-perm P d' h)

pub length-perm {ℓ} : {A : Type ℓ} {l r : List A} → Permᴰ l r → length l ≡ length r
length-perm Permᴰ.nil = refl
length-perm (Permᴰ.cons e d) = ap suc (length-perm d)
length-perm (Permᴰ.swap e e') = refl
length-perm (Permᴰ.trans d d') = length-perm d ∙ length-perm d'

pub sum_at-perm {ℓ} :
    {A : Type ℓ} (f : A → Vote) (y : ℕ) {l r : List A}
    → Permᴰ l r
    → sum_at y (map f l) ≡ sum_at y (map f r)
sum_at-perm f y Permᴰ.nil = refl
sum_at-perm f y (Permᴰ.cons e d) = ap₂ ◌+◌ (ap (λ b. eval (f b).fs y) e) (sum_at-perm f y d)
sum_at-perm f y (Permᴰ.swap e e') =
    omega (arith, ap (λ b. eval (f b).fs y) e, ap (λ b. eval (f b).fs y) e')
sum_at-perm f y (Permᴰ.trans d d') = sum_at-perm f y d ∙ sum_at-perm f y d'

-- The polynomial of the sum.
abbrev pub poly_sum : List Vote → List ℕ
poly_sum [] = []
poly_sum (v ∷ vs) = poly_add v.fs (poly_sum vs)

pub eval-poly_sum : (y : ℕ) (vs : List Vote) → eval (poly_sum vs) y ≡ sum_at y vs
unfolding eval
eval-poly_sum y [] = refl
eval-poly_sum y (v ∷ vs) =
    eval-poly_add y v.fs (poly_sum vs) ∙ ap (λ s. eval v.fs y + s) (eval-poly_sum y vs)

pub length-poly_sum :
    (t : ℕ) (vs : List Vote) → All (λ v. length v.fs ≤ t) vs → length (poly_sum vs) ≤ t
length-poly_sum t [] h = omega arith
length-poly_sum t (v ∷ vs) h = length-poly_add t v.fs (poly_sum vs) h.0 (length-poly_sum t vs h.1)
