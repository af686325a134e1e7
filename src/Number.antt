-- ===== src/Number.antt =====
-- The operations of math/big that the program calls, on integers of any size, with a positive
-- modulus: Mod (Euclidean), ModInverse, Exp and Xor.
pub mod Congruence
pub mod Residue
pub mod Power
pub mod Inverse
pub mod Xor
pub mod Prime
use Prim.Native.Nat.{bit_xor}
use digital_election_system.Common.{
  ℕ, zero, suc, ◌+◌, ◌-◌, ◌*◌, ◌%◌, ◌^◌, true, false, Option, none, some, ◌>>=◌, ◌==◌, ℤ, pos,
  negsuc, ◌*ℤ◌,
}

-- x.Mod(x, m) for an m of 1 or more: the representative in [0, m), also of a negative number. (In the
-- source 0 as m is a panic.)
unfoldable pub emod : ℤ → ℕ → ℕ
emod (pos n) m = n % m
emod (negsuc n) m = m - 1 - n % m

-- The least x < n with a * x ≡ 1 (mod m).
unfoldable pub find_inverse : ℕ → ℕ → ℕ → Option ℕ
find_inverse a m zero = none
find_inverse a m (suc n) = elim (find_inverse a m n) [
  | some x ↦ some x
  | none ↦ elim (a * n % m == 1 % m) [ true ↦ some n | false ↦ none ]
]

-- ModInverse(a, m): `none` is nil, for an a that has no inverse.
unfoldable pub mod_inverse : ℤ → ℕ → Option ℕ
unfolding emod find_inverse
mod_inverse a m = find_inverse (emod a m) m m

-- Exp(x, y, m): with a negative y the power of the inverse, and nil where there is none.
unfoldable pub exp : ℤ → ℤ → ℕ → Option ℕ
unfolding emod mod_inverse
exp x (pos n) m = some (emod x m ^ n % m)
exp x (negsuc n) m = do i ← mod_inverse x m; some (i ^ suc n % m)

-- Exp(x, i, nil) at an exponent i that is not negative.
unfoldable pub power : ℤ → ℕ → ℤ
power x zero = pos 1
power x (suc n) = power x n *ℤ x

-- Xor, on the two's complement for negative numbers.
unfoldable pub xor : ℤ → ℤ → ℤ
xor (pos a) (pos b) = pos (bit_xor a b)
xor (pos a) (negsuc b) = negsuc (bit_xor a b)
xor (negsuc a) (pos b) = negsuc (bit_xor a b)
xor (negsuc a) (negsuc b) = pos (bit_xor a b)
