-- ===== src/ServerTests.antt =====
-- The theorems on sums that panic, revocation, the logger and the primes at concrete inputs.
use digital_election_system.Common.{
  ℕ, zero, suc, ◌≤◌, ◌<◌, ◌≡◌, ◌↔◌, ◌⊎◌, refl, true, false, Option, none, some, List, [], ◌∷◌,
  arith, length, ℤ, pos, ◌==◌, ◌||◌,
}
use digital_election_system.Framework.{Share, voting}
use digital_election_system.Knowledge.{equal}
use digital_election_system.Commitment.{ActiveSecretSharing}
use digital_election_system.Commitment.Setup.{IsGroup}
use digital_election_system.Arithmetic.{new_arithmetic, add}
use digital_election_system.Arithmetic.Panics.{Sum, add-none_iff}
use digital_election_system.Controller.{ActiveMpcController, ChanStruct, add_vote}
use digital_election_system.Controller.Panics.{add_vote-shorter}
use digital_election_system.Controller.Revoke.{
  SameTally, vote_and_revoke, vote_and_revoke-SameTally,
}
use digital_election_system.Logger.{LogStruct, Logger, copied, send_batch, start_logger}
use digital_election_system.Logger.Batches.{
  send_batch-copied, length-start_logger, start_logger-entries,
}
use digital_election_system.Primes.{
  PrimeFactor, searching, leaving, ended, safe_prime_step, schedule, all_ended,
  frederiks_max_prime_factor, max_prime_factors,
}
use digital_election_system.Primes.Factor.{max_prime_factors_lem}
use digital_election_system.Primes.SafePrime.{Passes, frederiks_max_prime_factor-Passes}
use digital_election_system.Primes.Ending.{turns_of, all_ended-schedule}

abbrev a : ActiveSecretSharing
a = record { parties = 4; threshold = 1; prime_p = 23; prime_q = 11; t_bit = 3; g = 2; h = 3 }

group : IsGroup a
group = record {
  p_big = omega arith;
  q_big = omega arith;
  g_order = record { same = refl };
  h_order = record { same = refl };
}

abbrev share : ℕ → ℕ → Share
share s t = record { s = pos s; t = pos t; point = pos 1; id = 7 }

add-none_iff_example :
    (◌≡◌ {A = Option Sum}
      (add
        (new_arithmetic 23 11)
        (share 4 6)
        (share 1 2)
        (some (pos 3 ∷ pos 1 ∷ []))
        (some (pos 3 ∷ [])))
      none)
    ↔ ((equal (pos 1) (pos 1) ≡ false) ⊎ (length (pos 3 ∷ []) < length (pos 3 ∷ pos 1 ∷ [])))
add-none_iff_example =
    add-none_iff (new_arithmetic 23 11) (share 4 6) (share 1 2) (some (pos 3 ∷ pos 1 ∷ []))
      (pos 3 ∷ [])

abbrev controller : ActiveMpcController
controller = record {
  arithmetic = new_arithmetic 23 11;
  state = record { share = share 2 5; proof = some (pos 4 ∷ pos 9 ∷ []); network = voting };
  state_channel = [];
  start_share = share 0 0;
  verified_shares = [];
}

abbrev vote : List ℤ → ChanStruct
vote proof = record { share = share 4 6; proof = some proof }

add_vote-shorter_example :
    (p : ActiveMpcController) × (add_vote controller (vote (pos 3 ∷ [])) ≡ some p)
    × (add_vote p (vote (pos 3 ∷ pos 1 ∷ [])) ≡ none)
unfolding equal
add_vote-shorter_example =
    add_vote-shorter controller (vote (pos 3 ∷ [])) (vote (pos 3 ∷ pos 1 ∷ [])) (pos 3) []
      (pos 4 ∷ pos 9 ∷ []) (pos 3 ∷ pos 1 ∷ []) refl refl refl (omega arith) refl (omega arith)

vote_and_revoke-SameTally_example :
    (p : ActiveMpcController) × (vote_and_revoke controller (share 4 6) (pos 3 ∷ pos 1 ∷ [])
      ≡ some p)
    × SameTally 11 controller p
unfolding digital_election_system.Controller.lookup_bool digital_election_system.Number.emod
vote_and_revoke-SameTally_example =
    vote_and_revoke-SameTally a group controller (share 4 6) (pos 3) (pos 1 ∷ [])
      (pos 4 ∷ pos 9 ∷ []) refl refl refl refl refl
      (record { same = refl }, (record { same = refl }, tt)) refl (omega arith)

abbrev entry : ℕ → LogStruct
entry i = record {
  session_id = i ∷ [];
  share_id = [];
  action = [];
  server_id = pos 0;
  time = pos 0;
}

abbrev logger : List LogStruct → List LogStruct → Logger
logger waiting channel = record {
  logger_list = waiting;
  last_sent = pos 0;
  log_channel = channel;
  inserted = [];
}

send_batch-copied_example :
    ((send_batch 2 (pos 20) true (logger (entry 1 ∷ entry 2 ∷ entry 3 ∷ []) [])).logger_list ≡ [])
    × ((send_batch 2 (pos 20) true (logger (entry 1 ∷ entry 2 ∷ entry 3 ∷ []) [])).inserted
        ≡ (entry 1 ∷ entry 2 ∷ []) ∷ [])
unfolding copied
send_batch-copied_example =
    send_batch-copied 2 (pos 20) (logger (entry 1 ∷ entry 2 ∷ entry 3 ∷ []) []) (entry 1)
      (entry 2 ∷ entry 3 ∷ []) (omega arith) refl

start_logger-entries_example :
    digital_election_system.Logger.Batches.entries
      (start_logger 2 (pos 20) true (logger (entry 1 ∷ []) (entry 3 ∷ [])))
    ≡ digital_election_system.Logger.Batches.entries (logger (entry 1 ∷ []) (entry 3 ∷ []))
start_logger-entries_example =
    start_logger-entries 2 (pos 20) true (logger (entry 1 ∷ []) (entry 3 ∷ [])) (omega arith)

max_prime_factors_lem_example : max_prime_factors 36 ≡ some (pos 9)
max_prime_factors_lem_example = max_prime_factors_lem 2 9 refl

-- 5 and 7 in two goroutines: 2 and 3 pass, and 7 is stored last.
frederiks_max_prime_factor-Passes_example : Passes (λ n. (n == 2) || (n == 3)) (some 7, some 3)
unfolding frederiks_max_prime_factor digital_election_system.Primes.all_ended
    digital_election_system.Primes.schedule digital_election_system.Primes.schedule_one
    digital_election_system.Primes.start_search safe_prime_step
frederiks_max_prime_factor-Passes_example =
    frederiks_max_prime_factor-Passes (λ n. (n == 2) || (n == 3)) 13 (5 ∷ [])
      ((0, 7) ∷ (1, 0) ∷ (0, 0) ∷ (1, 0) ∷ (0, 0) ∷ []) (some 7, some 3) refl

two_turns : (i : ℕ) → i < 2 → 2 ≤ turns_of i ((0, 5) ∷ (1, 0) ∷ (0, 3) ∷ (1, 0) ∷ [])
two_turns zero h = omega arith
two_turns (suc zero) h = omega arith
two_turns (suc (suc i)) h = absurd (omega (arith, h))

all_ended-schedule_example :
    all_ended
      (schedule
        (λ n. n == 3)
        ((0, 5) ∷ (1, 0) ∷ (0, 3) ∷ (1, 0) ∷ [])
        (record { found = true; p = some 7; q = some 3 })
        (searching 13 ∷ leaving 7 ∷ [])).0
    ≡ true
all_ended-schedule_example =
    all_ended-schedule (λ n. n == 3) ((0, 5) ∷ (1, 0) ∷ (0, 3) ∷ (1, 0) ∷ [])
      (record { found = true; p = some 7; q = some 3 }) (searching 13 ∷ leaving 7 ∷ []) refl
      two_turns
