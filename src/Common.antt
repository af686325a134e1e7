-- ===== src/Common.antt =====
-- The names that the other modules share: the libraries', passed on, those of the children, and
-- the sequencing of steps that may panic.
mod Tests
mod Lists
mod Int
pub use Tests.*
pub use Lists.*
unfoldable pub use Int.*
pub use Prim.Native.Nat.{ℕ, zero, suc, ◌+◌, ◌-◌, ◌*◌, ◌/◌, ◌%◌, ◌^◌, ◌≤◌, ◌<◌}
pub use mathlib.Core.Path.{◌≡◌, refl, sym, ap, ap₂, ◌∙◌, subst, ◌≡⟨◌⟩◌, ◌∎}
pub use mathlib.Core.Logic.{◌≢◌, ◌↔◌, ◌⊎◌, inl, inr}
pub use mathlib.Core.Bool.{Bool, true, false, not, ◌&&◌, ◌||◌}
pub use mathlib.Core.Option.{Option, none, some}
pub use mathlib.Core.List.{List, [], ◌∷◌, ◌++◌, map}
pub use native.Mathlib.Omega.{arith}

-- `none` is a panic of the program.
infixl 5 ◌>>=◌
abbrev pub ◌>>=◌ {ℓ κ} : {A : Type ℓ} {B : Type κ} → Option A → (A → Option B) → Option B
none >>= f = none
some a >>= f = f a

-- The value that a step leaves when the rest has one.
pub bind-some {ℓ κ} :
    {A : Type ℓ} {B : Type κ} {f : A → Option B} {b : B} (x : Option A)
    → (x >>= f) ≡ some b
    → (a : A) × (x ≡ some a) × (f a ≡ some b)
bind-some none h = cc
bind-some (some a) h = (a, refl, h)

abbrev pub or_else {ℓ} : {A : Type ℓ} → A → Option A → A
or_else x none = x
or_else x (some a) = a

pub some_inj {ℓ} : {A : Type ℓ} {a b : A} → some a ≡ some b → a ≡ b
some_inj {a = a} h = ap (or_else a) h
