-- ===== src/ElectionTests.antt =====
-- An election of two votes at three of four servers, in the group of order 11 modulo 23.
use mathlib.Core.List.{Permᴰ}
use digital_election_system.Common.{ℕ, ◌+◌, ◌≤◌, ◌≡◌, refl, ap, some, List, [], ◌∷◌, arith, pos}
use digital_election_system.Sharing.{Draws}
use digital_election_system.Controller.Moves.{Move, arrive, take}
use digital_election_system.Election.{Ballot, Server, tally}
use digital_election_system.Election.Counting.{CanDeal, tally_lem}
use digital_election_system.Tests.{a, o, d, group, prime}

abbrev yes : Ballot
yes = record { secret = 1; draws = d }

abbrev no : Ballot
no = record { secret = 0; draws = record d { vote_id = 8; g0 = 9 } }

can_deal :
    (s : ℕ) (e : Draws) → e.zs ≡ 1 ∷ 6 ∷ [] → s ≤ 1 → CanDeal o a (record { secret = s; draws = e })
can_deal s e zs low = record {
  low = low;
  z = 6;
  usable = ap (λ l. digital_election_system.Knowledge.Completeness.first_usable o a l) zs;
}

abbrev at : ℕ → List (Move Ballot) → Server
at i ms = record {
  index = i;
  start = record { s = pos 3; t = pos 5; point = pos (i + 1); id = 0 };
  start_proof = [];
  moves = ms;
}

abbrev servers : List Server
servers =
    at 0 (arrive yes ∷ take ∷ arrive no ∷ [])
    ∷ at 1 (take ∷ arrive no ∷ arrive yes ∷ take ∷ [])
    ∷ at 3 (arrive yes ∷ arrive no ∷ [])
    ∷ []

abbrev in_order : Permᴰ (yes ∷ no ∷ []) (yes ∷ no ∷ [])
in_order = Permᴰ.cons refl (Permᴰ.cons refl Permᴰ.nil)

tally_lem_example : tally o a servers ≡ some 1
tally_lem_example =
    tally_lem o a group (omega arith) (yes ∷ no ∷ []) servers prime (omega arith) (omega arith)
      (
        can_deal 1 d refl (omega arith),
        (can_deal 0 (record d { vote_id = 8; g0 = 9 }) refl (omega arith), tt),
      )
      (
        record { known = omega arith; at_point = refl; sent = in_order },
        (
          record { known = omega arith; at_point = refl; sent = Permᴰ.swap refl refl },
          (record { known = omega arith; at_point = refl; sent = in_order }, tt),
        ),
      )
      (
        ((λ e. absurd (omega (arith, e))), ((λ e. absurd (omega (arith, e))), tt)),
        (((λ e. absurd (omega (arith, e))), tt), (tt, tt)),
      )
      (omega arith)
