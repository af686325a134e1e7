-- ===== src/Primes/SafePrime.antt =====
-- server/src/util.go: the goroutines that search for a safe prime, in any order of their steps.
use digital_election_system.Common.{
  ℕ, zero, suc, ◌<◌, ◌≡◌, refl, ap, ◌∙◌, Bool, true, false, not, ◌&&◌, Option, none, some, List, [],
  ◌∷◌, length, some_inj, subst, if◌then◌else◌, arith,
}
use digital_election_system.Primes.{
  PrimeFactor, Stage, searching, leaving, ended, half_prime, safe_prime_step, schedule_one,
  schedule, all_ended, start_search, frederiks_max_prime_factor,
}

module _ (probably_prime : ℕ → Bool) where
  -- A found pair is a safe prime's, as far as the test says.
  pub record IsSafe (pf : PrimeFactor) : Type 0 where
    pub p : ℕ
    pub has_p : pf.p ≡ some p
    pub has_q : pf.q ≡ some (half_prime p)
    pub passes : probably_prime (half_prime p) ≡ true

  -- What a goroutine behind its loop knows.
  data Knows (pf : PrimeFactor) : Stage → Type 0 where
    still_searching : {p : ℕ} → Knows pf (searching p)
    has_prime : {p : ℕ} → probably_prime (half_prime p) ≡ true → Knows pf (leaving p)
    sees_found : {p : ℕ} → pf.found ≡ true → Knows pf (leaving p)
    found_at_end : pf.found ≡ true → Knows pf ended

  data AllKnow (pf : PrimeFactor) : List Stage → Type 0 where
    know_none : AllKnow pf []
    know_next :
        {s : Stage} {rest : List Stage} → Knows pf s → AllKnow pf rest → AllKnow pf (s ∷ rest)

  abbrev FoundSafe : PrimeFactor → Type 0
  FoundSafe pf = pf.found ≡ true → IsSafe pf

  abbrev StaysFound : PrimeFactor → PrimeFactor → Type 0
  StaysFound pf pf' = pf.found ≡ true → pf'.found ≡ true

  Knows-later : {pf pf' : PrimeFactor} {s : Stage} → StaysFound pf pf' → Knows pf s → Knows pf' s
  Knows-later later still_searching = still_searching
  Knows-later later (has_prime h) = has_prime h
  Knows-later later (sees_found h) = sees_found (later h)
  Knows-later later (found_at_end h) = found_at_end (later h)

  AllKnow-later :
      {pf pf' : PrimeFactor} {l : List Stage} → StaysFound pf pf' → AllKnow pf l → AllKnow pf' l
  AllKnow-later later know_none = know_none
  AllKnow-later later (know_next k rest) =
      know_next (Knows-later later k) (AllKnow-later later rest)

  -- What a step leaves: the result is safe, the goroutine knows, and what was found stays found.
  Kept : PrimeFactor → Stage × PrimeFactor → Type 0
  Kept pf r = FoundSafe r.1 × Knows r.1 r.0 × StaysFound pf r.1

  keep_loop :
      (next p : ℕ) (pf : PrimeFactor) (b c : Bool)
      → probably_prime (half_prime p) ≡ b
      → pf.found ≡ c
      → FoundSafe pf
      → Kept pf (if not b && not c then (searching next, pf) else (leaving p, pf))
  unfolding Kept
  keep_loop next p pf true c h g safe = (safe, has_prime h, λ f. f)
  keep_loop next p pf false true h g safe = (safe, sees_found g, λ f. f)
  keep_loop next p pf false false h g safe = (safe, still_searching, λ f. f)

  keep_leaving :
      (p : ℕ) (pf : PrimeFactor) (b : Bool)
      → probably_prime (half_prime p) ≡ b
      → FoundSafe pf
      → Knows pf (leaving p)
      → Kept pf (
          if b
          then (ended, record { found = true; p = some p; q = some (half_prime p) })
          else (ended, pf))
  unfolding Kept
  keep_leaving p pf true h safe k =
      (λ _. record { p = p; has_p = refl; has_q = refl; passes = h }, found_at_end refl, λ _. refl)
  keep_leaving p pf false h safe (has_prime g) = absurd (cc)
  keep_leaving p pf false h safe (sees_found g) = (safe, found_at_end g, λ f. f)

  keep_step :
      (next : ℕ) (pf : PrimeFactor) (s : Stage)
      → FoundSafe pf
      → Knows pf s
      → Kept pf (safe_prime_step probably_prime next pf s)
  unfolding safe_prime_step Kept
  keep_step next pf (searching p) safe k = keep_loop next p pf _ _ refl refl safe
  keep_step next pf (leaving p) safe k = keep_leaving p pf _ refl safe k
  keep_step next pf ended safe k = (safe, k, λ f. f)

  AllKept : PrimeFactor → List Stage × PrimeFactor → Type 0
  AllKept pf r = FoundSafe r.1 × AllKnow r.1 r.0 × StaysFound pf r.1

  keep_one :
      (next i : ℕ) (pf : PrimeFactor) (l : List Stage)
      → FoundSafe pf
      → AllKnow pf l
      → AllKept pf (schedule_one probably_prime next i pf l)
  unfolding AllKept schedule_one Kept
  keep_one next i pf [] safe know_none = (safe, know_none, λ f. f)
  keep_one next zero pf (s ∷ rest) safe (know_next k ks) =
      let kept = keep_step next pf s safe k in
      (kept.0, know_next kept.1 (AllKnow-later kept.2 ks), kept.2)
  keep_one next (suc i) pf (s ∷ rest) safe (know_next k ks) =
      let kept = keep_one next i pf rest safe ks in
      (kept.0, know_next (Knows-later kept.2 k) kept.1, kept.2)

  keep_all :
      (turns : List (ℕ × ℕ)) (pf : PrimeFactor) (l : List Stage)
      → FoundSafe pf
      → AllKnow pf l
      → FoundSafe (schedule probably_prime turns pf l).1
        × AllKnow (schedule probably_prime turns pf l).1 (schedule probably_prime turns pf l).0
  unfolding schedule AllKept
  keep_all [] pf l safe ks = (safe, ks)
  keep_all ((i, next) ∷ turns) pf l safe ks =
      let kept = keep_one next i pf l safe ks in
      keep_all turns (schedule_one probably_prime next i pf l).1
        (schedule_one probably_prime next i pf l).0 kept.0 kept.1

  AllKnow-first : (pf : PrimeFactor) (draws : List ℕ) → AllKnow pf (start_search draws)
  unfolding start_search
  AllKnow-first pf [] = know_none
  AllKnow-first pf (p ∷ draws) = know_next still_searching (AllKnow-first pf draws)

  ended-found :
      (pf : PrimeFactor) (s : Stage) (l : List Stage)
      → AllKnow pf (s ∷ l)
      → all_ended (s ∷ l) ≡ true
      → pf.found ≡ true
  unfolding all_ended
  ended-found pf s l (know_next (found_at_end h) ks) e = h
  ended-found pf s l (know_next still_searching ks) e = absurd (cc)
  ended-found pf s l (know_next (has_prime h) ks) e = absurd (cc)
  ended-found pf s l (know_next (sees_found h) ks) e = h

  unfound : FoundSafe (record { found = false; p = none; q = none })
  unfound = λ h. absurd (cc)

  pub Passes : Option ℕ × Option ℕ → Type 0
  Passes r =
      (p : ℕ) × (r.0 ≡ some p)
      × (r.1 ≡ some (half_prime p))
      × (probably_prime (half_prime p) ≡ true)

  safe_result :
      (pf : PrimeFactor) (l : List Stage) (b : Bool) (r : Option ℕ × Option ℕ)
      → (b ≡ true → IsSafe pf)
      → ◌≡◌ {A = Option (Option ℕ × Option ℕ)} (if b then some (pf.p, pf.q) else none) (some r)
      → Passes r
  unfolding Passes
  safe_result pf l true r safe e =
      let s = safe refl in
      let same : ◌≡◌ {A = Option ℕ × Option ℕ} (pf.p, pf.q) r = some_inj e in
      subst Passes same (s.p, s.has_p, s.has_q, s.passes)
  safe_result pf l false r safe e = absurd (cc)

  first_ended :
      (pf : PrimeFactor) (l : List Stage)
      → 0 < length l
      → FoundSafe pf
      → AllKnow pf l
      → all_ended l ≡ true
      → IsSafe pf
  first_ended pf [] h safe ks e = absurd (omega (arith, h))
  first_ended pf (s ∷ l) h safe ks e = safe (ended-found pf s l ks e)

  length-schedule_one :
      (next i : ℕ) (pf : PrimeFactor) (l : List Stage)
      → length (schedule_one probably_prime next i pf l).0 ≡ length l
  unfolding schedule_one
  length-schedule_one next i pf [] = refl
  length-schedule_one next zero pf (s ∷ l) = refl
  length-schedule_one next (suc i) pf (s ∷ l) = ap suc (length-schedule_one next i pf l)

  length-schedule :
      (turns : List (ℕ × ℕ)) (pf : PrimeFactor) (l : List Stage)
      → length (schedule probably_prime turns pf l).0 ≡ length l
  unfolding schedule
  length-schedule [] pf l = refl
  length-schedule ((i, next) ∷ turns) pf l =
      length-schedule turns (schedule_one probably_prime next i pf l).1
        (schedule_one probably_prime next i pf l).0
      ∙ length-schedule_one next i pf l

-- Whatever the order in which one goroutine or more take their steps, and whatever primes they draw: when
-- all of them have ended, pf.p and pf.q are set, q is (p - 1) / 2, and q passes the primality test.
pub frederiks_max_prime_factor-Passes :
    (probably_prime : ℕ → Bool) (p : ℕ) (draws : List ℕ) (turns : List (ℕ × ℕ))
    (r : Option ℕ × Option ℕ)
    → frederiks_max_prime_factor probably_prime (p ∷ draws) turns ≡ some r
    → Passes probably_prime r
unfolding frederiks_max_prime_factor start_search
frederiks_max_prime_factor-Passes probably_prime p draws turns r h =
    let start : PrimeFactor = record { found = false; p = none; q = none } in
    let l = searching p ∷ start_search draws in
    let kept =
      keep_all probably_prime turns start l (unfound probably_prime)
        (know_next still_searching (AllKnow-first probably_prime start draws)) in
    let after = schedule probably_prime turns start l in
    safe_result probably_prime after.1 after.0 (all_ended after.0) r
      (first_ended probably_prime after.1 after.0
        (omega (arith, length-schedule probably_prime turns start l)) kept.0 kept.1)
      h
