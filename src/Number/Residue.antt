-- ===== src/Number/Residue.antt =====
-- Integers modulo m: the remainder of math/big agrees with a sum over the natural numbers, and
-- sums and products of integers become sums and products of residues.
use native.Mathlib.Nat.{mod-eq_of_lt, div-add-mod}
use digital_election_system.Common.{
  ℕ, zero, suc, ◌+◌, ◌-◌, ◌*◌, ◌/◌, ◌%◌, ◌<◌, ◌≡◌, refl, sym, ap, ◌∙◌, arith, ℤ, pos, negsuc,
  pos_part, neg_part, ◌+ℤ◌, ◌-ℤ◌, ◌*ℤ◌, +ℤ_parts, -ℤ_parts,
}
use digital_election_system.Number.Congruence.{Cong, Cong-of_multiples, Cong-of_eq}
use digital_election_system.Number.{emod}

-- The natural number that stands for -1 modulo m.
abbrev pub minus_one : ℕ → ℕ
minus_one zero = 0
minus_one (suc p) = p

-- An integer as a natural number modulo m.
unfoldable pub residue : ℕ → ℤ → ℕ
residue m z = pos_part z + minus_one m * neg_part z

emod_negsuc : (p n : ℕ) → suc p - 1 - n % suc p ≡ (p * suc n) % suc p
emod_negsuc p n =
    sym (mod-eq_of_lt {n = suc p - 1 - n % suc p} {m = suc p} (omega arith))
    ∙ (Cong-of_multiples {m = suc p} (suc p - 1 - n % suc p) (p * suc n) n (n / suc p)
        (omega (arith, div-add-mod n (suc p)))).same

pub emod-eq : (m : ℕ) (z : ℤ) → 0 < m → emod z m ≡ residue m z % m
unfolding emod residue
emod-eq zero z h = elim h [ ]
emod-eq (suc p) (pos n) h = (Cong-of_eq {m = suc p} (omega arith)).same
emod-eq (suc p) (negsuc n) h = emod_negsuc p n ∙ ap (λ (t : ℕ). t % suc p) (omega arith)

pub *ℤ_parts :
    (a b : ℤ)
    → let x = pos_part a * neg_part b + neg_part a * pos_part b in
      let y = pos_part a * pos_part b + neg_part a * neg_part b in
      pos_part (a *ℤ b) + x ≡ neg_part (a *ℤ b) + y
unfolding ◌*ℤ◌
*ℤ_parts a b = ground arith

-- With x = a⁺b⁻ + a⁻b⁺ and y = a⁺b⁺ + a⁻b⁻, and -1 read as p.
product_parts :
    (p u v ap an bp bn : ℕ)
    → u + (ap * bn + an * bp) ≡ v + (ap * bp + an * bn)
    → u + p * v + suc p * ((ap * bn + an * bp) + p * (an * bn))
      ≡ (ap + p * an) * (bp + p * bn) + suc p * (v + an * bn)
product_parts p u v ap an bp bn h = omega arith

pub residue-* : (m : ℕ) (a b : ℤ) → 0 < m → Cong m (residue m (a *ℤ b)) (residue m a * residue m b)
unfolding residue
residue-* zero a b h = elim h [ ]
residue-* (suc p) a b h = Cong-of_multiples _ _ _ _ (
    product_parts p (pos_part (a *ℤ b)) (neg_part (a *ℤ b)) (pos_part a) (neg_part a) (pos_part b)
      (neg_part b) (*ℤ_parts a b))

pub residue-+ : (m : ℕ) (a b : ℤ) → 0 < m → Cong m (residue m (a +ℤ b)) (residue m a + residue m b)
unfolding residue
residue-+ zero a b h = elim h [ ]
residue-+ (suc p) a b h =
    Cong-of_multiples _ _ (neg_part a + neg_part b) (neg_part (a +ℤ b))
      (omega (arith, +ℤ_parts a b))

pub residue-sub :
    (m : ℕ) (a b : ℤ)
    → 0 < m
    → Cong m (residue m (a -ℤ b)) (residue m a + minus_one m * residue m b)
unfolding residue
residue-sub zero a b h = elim h [ ]
residue-sub (suc p) a b h =
    Cong-of_multiples _ _ (neg_part a + pos_part b + p * neg_part b)
      (neg_part (a -ℤ b) + neg_part b) (omega (arith, -ℤ_parts a b))

pub pos-*ℤ : (m n : ℕ) → pos m *ℤ pos n ≡ pos (m * n)
unfolding ◌*ℤ◌
pos-*ℤ m n = ground arith

pub pos-+ℤ : (m n : ℕ) → pos m +ℤ pos n ≡ pos (m + n)
unfolding ◌+ℤ◌
pos-+ℤ m n = ground arith

pub emod_pos : (n m : ℕ) → emod (pos n) m ≡ n % m
unfolding emod
emod_pos n m = refl

pub residue_pos : (m n : ℕ) → residue m (pos n) ≡ n
unfolding residue
residue_pos m n = omega arith
