-- ===== src/Arithmetic/Panics.antt =====
-- server/src/ArithmeticLogicImpl.go: when Add panics, and how many commitments it returns.
use digital_election_system.Common.{
  ℕ, suc, ◌≤◌, ◌<◌, ◌≡◌, ◌⊎◌, ◌↔◌, inl, inr, refl, ap, true, false, Bool-cases, Option, none, some,
  List, [], ◌∷◌, arith, length, ℤ, pos, ◌*ℤ◌, ◌+ℤ◌,
}
use digital_election_system.Number.{emod}
use digital_election_system.Framework.{Share}
use digital_election_system.Knowledge.{equal}
use digital_election_system.Arithmetic.{
  appended, ActiveArithmetic, validate, multiply_proofs, entries, add,
}

lt_or_le : (m n : ℕ) → (m < n) ⊎ (n ≤ m)
lt_or_le m n = ground arith

multiply_proofs-longer :
    (p : ℕ) (as' bs : List ℤ) → length bs < length as' → multiply_proofs p as' bs ≡ none
unfolding multiply_proofs
multiply_proofs-longer p [] bs h = absurd (omega (arith, h))
multiply_proofs-longer p (a ∷ as') [] h = refl
multiply_proofs-longer p (a ∷ as') (b ∷ bs) h =
    rw (multiply_proofs-longer p as' bs (omega (arith, h)))

pub multiply_proofs-fitting :
    (p : ℕ) (as' bs : List ℤ)
    → length as' ≤ length bs
    → (cs : List ℤ) × (multiply_proofs p as' bs ≡ some cs) × (length cs ≡ length as')
unfolding multiply_proofs
multiply_proofs-fitting p [] bs h = ([], refl, refl)
multiply_proofs-fitting p (a ∷ as') [] h = absurd (omega (arith, h))
multiply_proofs-fitting p (a ∷ as') (b ∷ bs) h =
    let (cs, made, len) = multiply_proofs-fitting p as' bs (omega (arith, h)) in
    (pos (emod (a *ℤ b) p) ∷ cs, rw made, ap suc len)

abbrev pub Sum : Type 0
Sum = Share × Option (List ℤ)

add-apart :
    (s : ActiveArithmetic) (a b : Share) (as' : Option (List ℤ)) (bs : List ℤ)
    → equal a.point b.point ≡ false
    → ◌≡◌ {A = Option Sum} (add s a b as' (some bs)) none
unfolding add validate
add-apart s a b as' bs apart = rw apart

add-longer :
    (s : ActiveArithmetic) (a b : Share) (as' : Option (List ℤ)) (bs : List ℤ)
    → equal a.point b.point ≡ true
    → length bs < length (entries as')
    → ◌≡◌ {A = Option Sum} (add s a b as' (some bs)) none
unfolding add validate
add-longer s a b as' bs same h = rw (same, multiply_proofs-longer s.prime_p (entries as') bs h)

-- The share that Add returns.
abbrev pub sum_share : ActiveArithmetic → Share → Share → Share
sum_share s a b = record {
  s = pos (emod (a.s +ℤ b.s) s.prime_q);
  t = pos (emod (a.t +ℤ b.t) s.prime_q);
  point = a.point;
  id = a.id;
}

pub add-fitting :
    (s : ActiveArithmetic) (a b : Share) (as' : Option (List ℤ)) (bs : List ℤ)
    → equal a.point b.point ≡ true
    → length (entries as') ≤ length bs
    → (cs : List ℤ) × (◌≡◌ {A = Option Sum}
        (add s a b as' (some bs))
        (some (sum_share s a b, appended cs)))
      × (length cs ≡ length (entries as'))
unfolding add validate
add-fitting s a b as' bs same h =
    let (cs, made, len) = multiply_proofs-fitting s.prime_p (entries as') bs h in
    (cs, rw (same, made), len)

-- Add, on a second argument with commitments, panics exactly if the points differ or the first argument
-- has more commitments than the second.
pub add-none_iff :
    (s : ActiveArithmetic) (a b : Share) (as' : Option (List ℤ)) (bs : List ℤ)
    → (◌≡◌ {A = Option Sum} (add s a b as' (some bs)) none)
      ↔ ((equal a.point b.point ≡ false) ⊎ (length bs < length (entries as')))
add-none_iff s a b as' bs = (
  λ h. elim (Bool-cases (equal a.point b.point)) [
    | inr apart ↦ inl apart
    | inl same ↦ elim (lt_or_le (length bs) (length (entries as'))) [
      | inl longer ↦ inr longer
      | inr fits ↦ let (cs, made, _) = add-fitting s a b as' bs same fits in absurd (cc)
    ]
  ],
  elim [
    | inl apart ↦ add-apart s a b as' bs apart
    | inr longer ↦ elim (Bool-cases (equal a.point b.point)) [
      | inr apart ↦ add-apart s a b as' bs apart
      | inl same ↦ add-longer s a b as' bs same longer
    ]
  ],
)
