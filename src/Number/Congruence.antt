-- ===== src/Number/Congruence.antt =====
-- Congruence modulo m on the natural numbers, where m - 1 stands for -1.
use native.Mathlib.Nat.{
  mod-add-mod, add-mod-mod, mul-add-mod_self_left, div-add-mod, mul_comm, mod-mod,
}
use digital_election_system.Common.{ℕ, ◌+◌, ◌*◌, ◌/◌, ◌%◌, ◌≡◌, refl, sym, ap, ◌∙◌, arith}

pub record Cong (m a b : ℕ) : Type 0 where
  pub same : a % m ≡ b % m

module _ {m : ℕ} where
  infixl 30 ◌⊙◌
  pub Cong-refl : (a : ℕ) → Cong m a a
  Cong-refl a = record { same = refl }

  pub Cong-of_eq : {a b : ℕ} → a ≡ b → Cong m a b
  Cong-of_eq e = record { same = ap (λ t. t % m) e }

  pub Cong-sym : {a b : ℕ} → Cong m a b → Cong m b a
  Cong-sym e = record { same = sym e.same }

  -- Congruences in a row.
  pub ◌⊙◌ : {a b c : ℕ} → Cong m a b → Cong m b c → Cong m a c
  e ⊙ f = record { same = e.same ∙ f.same }

  pub Cong-of_multiples : (a b k l : ℕ) → a + m * k ≡ b + m * l → Cong m a b
  Cong-of_multiples a b k l e = record {
    same =
        sym (mul-add-mod_self_left m k a)
        ∙ ap (λ (t : ℕ). t % m) (omega arith)
        ∙ mul-add-mod_self_left m l b;
  }

  pub Cong-mod : (a : ℕ) → Cong m (a % m) a
  Cong-mod a = record { same = mod-mod a m }

  pub Cong-add : {a b c d : ℕ} → Cong m a b → Cong m c d → Cong m (a + c) (b + d)
  Cong-add {a} {b} {c} {d} e f = record {
    same =
        sym (mod-add-mod a m c)
        ∙ ap (λ t. (t + c) % m) e.same
        ∙ mod-add-mod b m c
        ∙ (sym (add-mod-mod b c m) ∙ ap (λ t. (b + t) % m) f.same ∙ add-mod-mod b d m);
  }

  mul_left_mod : (a b : ℕ) → Cong m (a % m * b) (a * b)
  mul_left_mod a b =
      Cong-of_multiples (a % m * b) (a * b) (a / m * b) 0
        (omega (arith, ap (λ (t : ℕ). t * b) (div-add-mod a m)))

  mul_left : (c a b : ℕ) → Cong m a b → Cong m (a * c) (b * c)
  mul_left c a b e =
      Cong-sym (mul_left_mod a c) ⊙ Cong-of_eq (ap (λ t. t * c) e.same) ⊙ mul_left_mod b c

  pub Cong-mul : {a b c d : ℕ} → Cong m a b → Cong m c d → Cong m (a * c) (b * d)
  Cong-mul {a} {b} {c} {d} e f =
      mul_left c a b e ⊙ Cong-of_eq (mul_comm b c) ⊙ mul_left b c d f ⊙ Cong-of_eq (mul_comm d b)

  pub Cong-mul_left : (c : ℕ) {a b : ℕ} → Cong m a b → Cong m (c * a) (c * b)
  Cong-mul_left c e = Cong-mul (Cong-refl c) e

  pub Cong-mul_right : (c : ℕ) {a b : ℕ} → Cong m a b → Cong m (a * c) (b * c)
  Cong-mul_right c e = Cong-mul e (Cong-refl c)

  pub Cong-add_left : (c : ℕ) {a b : ℕ} → Cong m a b → Cong m (c + a) (c + b)
  Cong-add_left c e = Cong-add (Cong-refl c) e

  pub Cong-add_right : (c : ℕ) {a b : ℕ} → Cong m a b → Cong m (a + c) (b + c)
  Cong-add_right c e = Cong-add e (Cong-refl c)

  times_unit : (u v c : ℕ) → Cong m (u * v) 1 → Cong m c (c * u * v)
  times_unit u v c unit =
      Cong-of_eq (omega arith) ⊙ Cong-mul_left c (Cong-sym unit) ⊙ Cong-of_eq (omega arith)

  -- A factor that has an inverse cancels.
  pub Cong-mul_cancel : (u v a b : ℕ) → Cong m (u * v) 1 → Cong m (a * u) (b * u) → Cong m a b
  Cong-mul_cancel u v a b unit e =
      times_unit u v a unit ⊙ Cong-mul_right v e ⊙ Cong-sym (times_unit u v b unit)
