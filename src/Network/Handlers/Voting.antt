-- ===== src/Network/Handlers/Voting.antt =====
-- server/src/NetworkHTTPSImpl.go: several votes at a server that knows none of them, from the first post to
-- the last.
use mathlib.Core.List.{Permᴰ}
use digital_election_system.Common.{
  ◌+◌, ◌<◌, ◌≡◌, refl, ap, ◌∙◌, subst, none, List, [], ◌∷◌, ◌++◌, length, All, arith,
}
use digital_election_system.Knowledge.{Oracle}
use digital_election_system.Commitment.{ActiveSecretSharing}
use digital_election_system.Network.{done, Event, Network, Platform, lookup_id, lookup_sender}
use digital_election_system.Network.Handlers.{has_sender}
use digital_election_system.Network.Handlers.Collecting.{Opens}
use digital_election_system.Network.Handlers.Adding.{none_yet}
use digital_election_system.Network.Handlers.Quorum.{Post, SignOnce, IsValidPost, IsNew}
use digital_election_system.Network.Handlers.Interleaving.{
  Cast, Waiting, Interleaves, here, run_schedule, Ready, event, due,
}
use digital_election_system.Network.Handlers.Schedules.{
  waiting, DistinctIds, all_due, run_schedule-from,
}

module _ (p : Platform) (o : Oracle) (a : ActiveSecretSharing) (n : Network) where
  -- All posts for a vote that the server does not know are still to come.
  pub record IsDue (w : Waiting) : Type 0 where
    pub opens : Opens (here p o a n w.cast)
    pub unknown : lookup_id w.cast.vote.id n.received_shares ≡ none
    pub some_posts : 0 < length w.posts
    pub count : length w.posts + n.t ≡ length n.ip_list
    pub valid : All (IsValidPost (here p o a n w.cast)) w.posts
    pub once : SignOnce n.server_id w.posts

  abbrev pub events : List Waiting → List Event
  events [] = []
  events (w ∷ ws) = event p o a n w.cast ∷ events ws

  due-IsDue :
      (w : Waiting) (xs : List Post)
      → 0 < length xs
      → due p o a n (waiting w.cast xs) ≡ event p o a n w.cast ∷ []
  due-IsDue w [] h = absurd (omega arith)
  due-IsDue w (x ∷ xs) h = refl

  all_due-IsDue : (ws : List Waiting) → All IsDue ws → all_due p o a n ws ≡ events ws
  all_due-IsDue [] h = refl
  all_due-IsDue (w ∷ ws) h =
      ap (λ l. l ++ all_due p o a n ws) (due-IsDue w w.posts h.0.some_posts)
      ∙ ap (λ l. event p o a n w.cast ∷ l) (all_due-IsDue ws h.1)

  Ready-IsDue : (ws : List Waiting) → All IsDue ws → All (Ready p o a n n) ws
  unfolding lookup_sender has_sender
  Ready-IsDue [] h = tt
  Ready-IsDue (w ∷ ws) h = (start w.posts h.0.count h.0.valid h.0.once, Ready-IsDue ws h.1)
    where
      all_new : (xs : List Post) → All (IsNew n.server_id [] []) xs
      all_new [] = tt
      all_new (y ∷ ys) = (record { unmarked = refl; apart = refl }, all_new ys)

      start :
          (xs : List Post)
          → length xs + n.t ≡ length n.ip_list
          → All (IsValidPost (here p o a n w.cast)) xs
          → SignOnce n.server_id xs
          → Ready p o a n n (waiting w.cast xs)
      start [] count valid once = tt
      start (x ∷ xs) count valid once = record {
        opens = h.0.opens;
        signs = [];
        seen_from = [];
        entered = none_yet h.0.unknown;
        count = omega (arith, count);
        valid = valid;
        once = once;
        new = all_new (x ∷ xs);
      }

  -- Several votes with different ids, none of them known to the server, wait for n - t posts each: for the
  -- client's submission, which the server signs itself, and for signatures of servers in the list whose
  -- keys verify them, with no two by one signer. The posts of all votes arrive interleaved in any way.
  -- Then every handler ends, and the observer has been told of the share of each vote once and of nothing
  -- else, in some order. Each vote's share opens and verifies, and a map with one entry is ranged over
  -- as it is.
  pub run_schedule_lem :
      (ws : List Waiting) (schedule : List (Cast × Post))
      → Interleaves ws schedule
      → DistinctIds ws
      → All IsDue ws
      → (m : Network) × (es : List Event) × (run_schedule p o a n n schedule ≡ done m)
        × (m.observed ≡ n.observed ++ es)
        × Permᴰ es (events ws)
  run_schedule_lem ws schedule i distinct all_are_due =
      let (m, es, run, observed, told) =
        run_schedule-from p o a n n i
          (λ v. record { ip_list = refl; t = refl; server_id = refl; observer = refl }) distinct
          (Ready-IsDue ws all_are_due) in
      (m, es, run, observed, subst (Permᴰ es) (all_due-IsDue ws all_are_due) told)
