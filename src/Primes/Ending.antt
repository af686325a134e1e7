-- ===== src/Primes/Ending.antt =====
-- server/src/util.go: the end of the goroutines that search for a safe prime.
use digital_election_system.Common.{
  ℕ, zero, suc, ◌+◌, ◌<◌, ◌≤◌, ◌≡◌, ◌≢◌, inl, inr, refl, ap, ◌∙◌, Bool, true, Bool-cases, List, [],
  ◌∷◌, length, if◌then◌else◌, arith, ◌==◌, ==_iff,
}
use digital_election_system.Primes.{
  PrimeFactor, Stage, searching, leaving, ended, half_prime, safe_prime_step, schedule_one,
  schedule, all_ended,
}

-- How many of the turns are those of the goroutine with the number i.
abbrev pub turns_of : ℕ → List (ℕ × ℕ) → ℕ
turns_of i [] = 0
turns_of i ((j, next) ∷ turns) =
    let others = turns_of i turns in if i == j then suc others else others

-- The steps that a goroutine still takes once a prime is found.
left : Stage → ℕ
left (searching p) = 2
left (leaving p) = 1
left ended = 0

-- Every goroutine, the first of which has the number k, has as many turns.
Enough : List (ℕ × ℕ) → ℕ → List Stage → Type 0
Enough turns k [] = Unit
Enough turns k (s ∷ rest) = (left s ≤ turns_of k turns) × Enough turns (suc k) rest

turns_of_other :
    (k j next : ℕ) (turns : List (ℕ × ℕ))
    → k ≢ j
    → turns_of k ((j, next) ∷ turns) ≡ turns_of k turns
turns_of_other k j next turns apart = elim (Bool-cases (k == j)) [
  | inl same ↦ absurd (apart ((==_iff k j).0 same))
  | inr other ↦ rw other refl
]

turns_of_self :
    (k next : ℕ) (turns : List (ℕ × ℕ)) → turns_of k ((k, next) ∷ turns) ≡ suc (turns_of k turns)
turns_of_self k next turns = rw ((==_iff k k).1 refl) refl

Enough-before :
    (turns : List (ℕ × ℕ)) (j next k : ℕ) (l : List Stage)
    → j < k
    → Enough ((j, next) ∷ turns) k l
    → Enough turns k l
unfolding Enough
Enough-before turns j next k [] low h = tt
Enough-before turns j next k (s ∷ rest) low (h, more) = (
  omega (arith, h, turns_of_other k j next turns (λ e. absurd (omega (arith, e, low)))),
  Enough-before turns j next (suc k) rest (omega (arith, low)) more,
)

module _ (probably_prime : ℕ → Bool) where
  loop-ends :
      (next p : ℕ) (pf : PrimeFactor)
      → pf.found ≡ true
      → safe_prime_step probably_prime next pf (searching p) ≡ (leaving p, pf)
  unfolding safe_prime_step
  loop-ends next p pf found = elim (Bool-cases (probably_prime (half_prime p))) [
    | inl b ↦ rw (b, found)
    | inr b ↦ rw (b, found)
  ]

  leaving-ends :
      (next p : ℕ) (pf : PrimeFactor)
      → (safe_prime_step probably_prime next pf (leaving p)).0 ≡ ended
  unfolding safe_prime_step
  leaving-ends next p pf = elim (Bool-cases (probably_prime (half_prime p))) [
    | inl b ↦ rw b
    | inr b ↦ rw b
  ]

  -- With a prime found, each step of a goroutine brings it nearer to its end.
  left-step :
      (next n : ℕ) (pf : PrimeFactor) (s : Stage)
      → pf.found ≡ true
      → left s ≤ suc n
      → left (safe_prime_step probably_prime next pf s).0 ≤ n
  unfolding left safe_prime_step
  left-step next n pf (searching p) found h = rw (loop-ends next p pf found) (omega (arith, h))
  left-step next n pf (leaving p) found h = rw (leaving-ends next p pf) (omega arith)
  left-step next n pf ended found h = omega arith

  step-stays :
      (next : ℕ) (pf : PrimeFactor) (s : Stage)
      → pf.found ≡ true
      → (safe_prime_step probably_prime next pf s).1.found ≡ true
  unfolding safe_prime_step
  step-stays next pf (searching p) found = ap (λ r. r.1.found) (loop-ends next p pf found) ∙ found
  step-stays next pf (leaving p) found = elim (Bool-cases (probably_prime (half_prime p))) [
    | inl b ↦ rw b refl
    | inr b ↦ rw b found
  ]
  step-stays next pf ended found = found

  Enough-schedule_one :
      (turns : List (ℕ × ℕ)) (next i k j : ℕ) (pf : PrimeFactor) (l : List Stage)
      → j ≡ k + i
      → pf.found ≡ true
      → Enough ((j, next) ∷ turns) k l
      → Enough turns k (schedule_one probably_prime next i pf l).0
        × ((schedule_one probably_prime next i pf l).1.found ≡ true)
  unfolding Enough schedule_one
  Enough-schedule_one turns next i k j pf [] at found h = (tt, found)
  Enough-schedule_one turns next zero k j pf (s ∷ rest) at found (h, more) = (
    (
      left-step next (turns_of k turns) pf s found
          (omega (arith, h, own (omega arith), turns_of_self k next turns)),
      Enough-before turns j next (suc k) rest (omega (arith, at)) more,
    ),
    step-stays next pf s found,
  )
    where
      own : j ≡ k → turns_of k ((j, next) ∷ turns) ≡ turns_of k ((k, next) ∷ turns)
      own same = rw same refl
  Enough-schedule_one turns next (suc i) k j pf (s ∷ rest) at found (h, more) =
      let (enough, stays) =
        Enough-schedule_one turns next i (suc k) j pf rest (omega (arith, at)) found more in
      (
        (
          omega (arith, h, turns_of_other k j next turns (λ e. absurd (omega (arith, e, at)))),
          enough,
        ),
        stays,
      )

  Enough-all_ended : (k : ℕ) (l : List Stage) → Enough [] k l → all_ended l ≡ true
  unfolding Enough left all_ended
  Enough-all_ended k [] h = refl
  Enough-all_ended k (searching p ∷ l) (h, more) = absurd (omega (arith, h))
  Enough-all_ended k (leaving p ∷ l) (h, more) = absurd (omega (arith, h))
  Enough-all_ended k (ended ∷ l) (h, more) = Enough-all_ended (suc k) l more

  Enough-schedule :
      (turns : List (ℕ × ℕ)) (pf : PrimeFactor) (l : List Stage)
      → pf.found ≡ true
      → Enough turns 0 l
      → all_ended (schedule probably_prime turns pf l).0 ≡ true
  unfolding schedule
  Enough-schedule [] pf l found h = Enough-all_ended 0 l h
  Enough-schedule ((i, next) ∷ turns) pf l found h =
      let (enough, stays) = Enough-schedule_one turns next i 0 i pf l (omega arith) found h in
      Enough-schedule turns (schedule_one probably_prime next i pf l).1
        (schedule_one probably_prime next i pf l).0 stays enough

  two_each :
      (turns : List (ℕ × ℕ)) (k : ℕ) (l : List Stage)
      → ((i : ℕ) → i < k + length l → 2 ≤ turns_of i turns)
      → Enough turns k l
  unfolding Enough left
  two_each turns k [] h = tt
  two_each turns k (s ∷ rest) h =
      (least s (h k (omega arith)), two_each turns (suc k) rest (λ i low. h i (omega (arith, low))))
    where
      least : (s : Stage) {n : ℕ} → 2 ≤ n → left s ≤ n
      least (searching p) big = omega (arith, big)
      least (leaving p) big = omega (arith, big)
      least ended big = omega arith

-- Once a goroutine has stored a prime, all goroutines have ended after any further run in which each
-- of them has two turns or more, in whatever order the turns come.
pub all_ended-schedule :
    (probably_prime : ℕ → Bool) (turns : List (ℕ × ℕ)) (pf : PrimeFactor) (threads : List Stage)
    → pf.found ≡ true
    → ((i : ℕ) → i < length threads → 2 ≤ turns_of i turns)
    → all_ended (schedule probably_prime turns pf threads).0 ≡ true
all_ended-schedule probably_prime turns pf threads found two =
    Enough-schedule probably_prime turns pf threads found
      (two_each probably_prime turns 0 threads (λ i low. two i (omega (arith, low))))
