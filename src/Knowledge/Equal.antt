-- ===== src/Knowledge/Equal.antt =====
-- The test of integers for equality.
use digital_election_system.Common.{◌≡◌, refl, ap, true, ℤ, pos, negsuc, ==_iff}
use digital_election_system.Knowledge.{equal}

pub equal_sound : (a b : ℤ) → equal a b ≡ true → a ≡ b
unfolding equal
equal_sound (pos m) (negsuc n) h = cc
equal_sound (negsuc m) (pos n) h = cc
equal_sound (pos m) (pos n) h = ap pos ((==_iff m n).0 h)
equal_sound (negsuc m) (negsuc n) h = ap negsuc ((==_iff m n).0 h)

pub equal_self : (a : ℤ) → equal a a ≡ true
unfolding equal
equal_self (pos m) = (==_iff m m).1 refl
equal_self (negsuc m) = (==_iff m m).1 refl
