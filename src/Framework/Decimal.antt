-- ===== src/Framework/Decimal.antt =====
-- big.Int's String and SetString(_, 10), over character codes.
use digital_election_system.Common.{
  ℕ, zero, suc, ◌+◌, ◌-◌, ◌*◌, ◌/◌, ◌%◌, ◌≤◌, ◌<◌, ◌≡◌, refl, ap, ◌∙◌, sym, ◌&&◌, inl, inr, Option,
  none, some, ◌>>=◌, List, [], ◌∷◌, arith, ltb, leb, ◌==◌, if◌then◌else◌, Bool-cases, ℤ, pos,
  negsuc, sub_ℕ,
}

-- The digits of n in front of acc; n takes fewer than fuel rounds.
unfoldable pub show_digits : ℕ → ℕ → List ℕ → List ℕ
show_digits zero n acc = acc
show_digits (suc fuel) n acc =
    let rest = show_digits fuel (n / 10) ((b'0' + n % 10) ∷ acc) in
    if ltb n 10 then (b'0' + n) ∷ acc else rest

unfoldable pub show_number : ℕ → List ℕ
show_number n = show_digits (suc n) n []

unfoldable pub string : ℤ → List ℕ
string (pos n) = show_number n
string (negsuc n) = b'-' ∷ show_number (suc n)

unfoldable pub read_digits : ℕ → List ℕ → Option ℕ
read_digits v [] = some v
read_digits v (c ∷ cs) =
    if leb b'0' c && leb c b'9' then read_digits (v * 10 + (c - b'0')) cs else none

unfoldable pub read_number : List ℕ → Option ℕ
read_number [] = none
read_number (c ∷ cs) = read_digits 0 (c ∷ cs)

unfoldable pub set_string : List ℕ → Option ℤ
set_string [] = none
set_string (c ∷ cs) =
    if c == b'-'
    then read_number cs >>= (λ n. some (sub_ℕ 0 n))
    else if c == b'+'
    then read_number cs >>= (λ n. some (pos n))
    else read_number (c ∷ cs) >>= (λ n. some (pos n))

-- Reading the digits of n continues as with n read.
read-show_digits :
    (fuel n : ℕ) (acc : List ℕ)
    → n < fuel
    → read_digits 0 (show_digits fuel n acc) ≡ read_digits n acc
unfolding read_digits show_digits
read-show_digits zero n acc h = elim h [ ]
read-show_digits (suc fuel) n acc h = elim (Bool-cases (ltb n 10)) [
  | inl small ↦ ground arith
  | inr large ↦
      rw large
        (read-show_digits fuel (n / 10) ((b'0' + n % 10) ∷ acc) (ground arith) ∙ ground arith)
]

-- The text of a number begins with a digit.
show_digits_head :
    (fuel n : ℕ) (acc : List ℕ)
    → n < fuel
    → (c : ℕ) × (cs : List ℕ) × (show_digits fuel n acc ≡ c ∷ cs) × (b'0' ≤ c) × (c ≤ b'9')
unfolding show_digits
show_digits_head zero n acc h = elim h [ ]
show_digits_head (suc fuel) n acc h = elim (Bool-cases (ltb n 10)) [
  | inl small ↦ (b'0' + n, acc, rw small, omega arith, ground arith)
  | inr large ↦ rw large (show_digits_head fuel (n / 10) ((b'0' + n % 10) ∷ acc) (ground arith))
]

show_number_head : (n : ℕ) → (c : ℕ) × (cs : List ℕ) × (show_number n ≡ c ∷ cs) × (b'0' ≤ c)
unfolding show_number
show_number_head n =
    let (c, cs, e, low, _) = show_digits_head (suc n) n [] (omega arith) in (c, cs, e, low)

read_digits-show_number : (n : ℕ) → read_digits 0 (show_number n) ≡ some n
unfolding show_number read_digits
read_digits-show_number n = read-show_digits (suc n) n [] (omega arith)

read_number-cons : (c : ℕ) (cs : List ℕ) → read_number (c ∷ cs) ≡ read_digits 0 (c ∷ cs)
unfolding read_number
read_number-cons c cs = refl

read_number-show_number : (n : ℕ) → read_number (show_number n) ≡ some n
read_number-show_number n =
    let (c, cs, e, _) = show_number_head n in
    ap read_number e
    ∙ read_number-cons c cs
    ∙ sym (ap (read_digits 0) e)
    ∙ read_digits-show_number n

set_string-digits :
    (c : ℕ) (cs : List ℕ)
    → b'0' ≤ c
    → set_string (c ∷ cs) ≡ (read_number (c ∷ cs) >>= λ n. some (pos n))
unfolding set_string
set_string-digits c cs h = ground arith

set_string-minus :
    (cs : List ℕ) → set_string (b'-' ∷ cs) ≡ (read_number cs >>= λ n. some (sub_ℕ 0 n))
unfolding set_string
set_string-minus cs = refl

-- Reading the text of a number gives the number back.
pub set_string-string : (z : ℤ) → set_string (string z) ≡ some z
unfolding string
set_string-string (pos n) =
    let (c, cs, e, low) = show_number_head n in
    ap set_string e
    ∙ set_string-digits c cs low
    ∙ ap (λ t. read_number t >>= λ n. some (pos n)) (sym e)
    ∙ ap (λ r. r >>= λ n. some (pos n)) (read_number-show_number n)
set_string-string (negsuc n) =
    set_string-minus (show_number (suc n))
    ∙ ap (λ r. r >>= λ n. some (sub_ℕ 0 n)) (read_number-show_number (suc n))
    ∙ ground arith
