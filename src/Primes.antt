-- ===== src/Primes.antt =====
-- server/src/util.go: MaxPrimeFactors, on the numbers that are not negative, and
-- _frederiksMaxPrimeFactor, the search for a safe prime.
pub mod Factor
pub mod SafePrime
pub mod Ending
use digital_election_system.Common.{
  ℕ, zero, suc, ◌+◌, ◌-◌, ◌*◌, ◌/◌, ◌%◌, Bool, true, false, Option, none, some, List, [], ◌∷◌, ℤ,
  pos, negsuc, if◌then◌else◌, ltb, leb, ◌==◌, not, ◌&&◌,
}

-- The variable `max` is -1 or a value, or the loop's own counter, which goes on counting.
pub data Found : Type 0 where
  nothing : Found
  value : ℕ → Found
  counter : Found

-- The first loop: what is left of n, and whether a 2 was divided out. It needs fuel n + 1; a
-- zero goes on for ever.
unfoldable pub strip_twos : ℕ → Found → ℕ → Option (Found × ℕ)
strip_twos zero found n = none
strip_twos (suc fuel) found n = elim (n % 2 == 0) [
  | true ↦ strip_twos fuel (value 2) (n / 2)
  | false ↦ some (found, n)
]

-- The inner loop over one odd i, whose test compares i with n modulo 2.
unfoldable pub divide_out : ℕ → ℕ → Found → ℕ → Option (Found × ℕ)
divide_out zero i found n = none
divide_out (suc fuel) i found n = elim (i == n % 2) [
  | true ↦ divide_out fuel i counter (n / i)
  | false ↦ some (found, n)
]

-- i <= sqrt(n) is written i * i <= n.
unfoldable pub odd_loop : ℕ → ℕ → Found → ℕ → Option (Found × ℕ × ℕ)
odd_loop zero i found n = none
odd_loop (suc fuel) i found n = elim (leb (i * i) n) [
  | true ↦ elim (divide_out (suc n) i found n) [
    | none ↦ none
    | some (found', n') ↦ odd_loop fuel (i + 2) found' n'
  ]
  | false ↦ some (found, n, i)
]

unfoldable pub max_found : Found → ℕ → ℕ → ℤ
max_found found n i = elim (ltb 2 n) [
  | true ↦ pos n
  | false ↦ elim found [ nothing ↦ negsuc 0 | value v ↦ pos v | counter ↦ pos i ]
]

unfoldable pub max_prime_factors : ℕ → Option ℤ
max_prime_factors n = elim (strip_twos (suc n) nothing n) [
  | none ↦ none
  | some (found, m) ↦ elim (odd_loop (suc m) 3 found m) [
    | none ↦ none
    | some (found', m', i) ↦ some (max_found found' m' i)
  ]
]

-- The shared variable pf.
pub record PrimeFactor : Type 0 where
  pub found : Bool
  pub p : Option ℕ
  pub q : Option ℕ

-- Where one goroutine is: in its loop with the candidate p, behind the loop, or at its end.
pub data Stage : Type 0 where
  searching : ℕ → Stage
  leaving : ℕ → Stage
  ended : Stage

-- q := (p - 1) >> 1.
abbrev pub half_prime : ℕ → ℕ
half_prime p = (p - 1) / 2

-- `probably_prime` is ProbablyPrime(20).
module _ (probably_prime : ℕ → Bool) where
  -- A goroutine's next step under the lock; `next` is what rand.Prime gives if it draws again.
  unfoldable pub safe_prime_step : ℕ → PrimeFactor → Stage → Stage × PrimeFactor
  safe_prime_step next pf (searching p) =
      if not (probably_prime (half_prime p)) && not pf.found
      then (searching next, pf)
      else (leaving p, pf)
  safe_prime_step next pf (leaving p) =
      if probably_prime (half_prime p)
      then (ended, record { found = true; p = some p; q = some (half_prime p) })
      else (ended, pf)
  safe_prime_step next pf ended = (ended, pf)

  -- The step of the goroutine with the number i.
  unfoldable pub schedule_one : ℕ → ℕ → PrimeFactor → List Stage → List Stage × PrimeFactor
  schedule_one next i pf [] = ([], pf)
  schedule_one next zero pf (s ∷ rest) =
      let (s', pf') = safe_prime_step next pf s in (s' ∷ rest, pf')
  schedule_one next (suc i) pf (s ∷ rest) =
      let (rest', pf') = schedule_one next i pf rest in (s ∷ rest', pf')

  -- The steps in the order of the scheduler, each with its goroutine and what that would draw.
  unfoldable pub schedule : List (ℕ × ℕ) → PrimeFactor → List Stage → List Stage × PrimeFactor
  schedule [] pf threads = (threads, pf)
  schedule ((i, next) ∷ turns) pf threads =
      let (threads', pf') = schedule_one next i pf threads in schedule turns pf' threads'

unfoldable pub all_ended : List Stage → Bool
all_ended [] = true
all_ended (ended ∷ rest) = all_ended rest
all_ended (searching p ∷ rest) = false
all_ended (leaving p ∷ rest) = false

-- Each goroutine starts with a prime that it has drawn.
unfoldable pub start_search : List ℕ → List Stage
start_search [] = []
start_search (p ∷ draws) = searching p ∷ start_search draws

-- A goroutine for each of the first draws. pf.p and pf.q, when every goroutine has ended.
unfoldable pub frederiks_max_prime_factor :
    (ℕ → Bool) → List ℕ → List (ℕ × ℕ) → Option (Option ℕ × Option ℕ)
frederiks_max_prime_factor probably_prime draws turns =
    let (threads, pf) =
      schedule probably_prime turns (record { found = false; p = none; q = none })
        (start_search draws) in
    if all_ended threads then some (pf.p, pf.q) else none
