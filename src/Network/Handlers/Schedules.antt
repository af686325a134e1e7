-- ===== src/Network/Handlers/Schedules.antt =====
-- server/src/NetworkHTTPSImpl.go: what the observer has been told when all posts of several votes have arrived.
use mathlib.Core.List.{Permᴰ}
use mathlib.Core.List.Permᴰ
use digital_election_system.Common.{
  ℕ, ◌≡◌, refl, sym, ap, ◌∙◌, subst, false, ◌==◌, List, [], ◌∷◌, ◌++◌, All, arith,
}
use digital_election_system.Knowledge.{Oracle}
use digital_election_system.Commitment.{ActiveSecretSharing}
use digital_election_system.Network.{done, Event, Network, Platform}
use digital_election_system.Network.Handlers.Collecting.{Same}
use digital_election_system.Network.Handlers.Adding.{Leaves}
use digital_election_system.Network.Handlers.Quorum.{Post}
use digital_election_system.Network.Handlers.Interleaving.{
  Cast, Waiting, Interleaves, ended, next, here, run_schedule, Ready, event, due, append_nil,
  post-Stepped, Ready-kept, Same-at,
}

-- No two votes have one id.
abbrev pub DistinctIds : List Waiting → Type 0
DistinctIds [] = Unit {0}
DistinctIds (w ∷ ws) = All (λ u. (u.cast.vote.id == w.cast.vote.id) ≡ false) ws × DistinctIds ws

abbrev pub waiting : Cast → List Post → Waiting
waiting v xs = record { cast = v; posts = xs }

All-split :
    (P : Waiting → Type 0) (us : List Waiting) (w : Waiting) (vs : List Waiting)
    → All P (us ++ w ∷ vs)
    → All P us × P w × All P vs
All-split P [] w vs h = (tt, h.0, h.1)
All-split P (u ∷ us) w vs h = let (l, m, r) = All-split P us w vs h.1 in ((h.0, l), m, r)

All-join :
    (P : Waiting → Type 0) (us : List Waiting) (w : Waiting) (vs : List Waiting)
    → All P us
    → P w
    → All P vs
    → All P (us ++ w ∷ vs)
All-join P [] w vs l m r = (m, r)
All-join P (u ∷ us) w vs l m r = (l.0, All-join P us w vs l.1 m r)

==_sym : (j k : ℕ) → (j == k) ≡ false → (k == j) ≡ false
==_sym j k h = ground arith

others :
    (us vs : List Waiting) (w : Waiting)
    → DistinctIds (us ++ w ∷ vs)
    → All (λ u. (u.cast.vote.id == w.cast.vote.id) ≡ false) us
      × All (λ u. (u.cast.vote.id == w.cast.vote.id) ≡ false) vs
others [] vs w h = (tt, h.0)
others (u ∷ us) vs w h =
    let (l, at_w, r) = All-split (λ x. (x.cast.vote.id == u.cast.vote.id) ≡ false) us w vs h.0 in
    let (left, right) = others us vs w h.1 in
    ((==_sym w.cast.vote.id u.cast.vote.id at_w, left), right)

DistinctIds-posts :
    (us vs : List Waiting) (v : Cast) (xs ys : List Post)
    → DistinctIds (us ++ waiting v xs ∷ vs)
    → DistinctIds (us ++ waiting v ys ∷ vs)
DistinctIds-posts [] vs v xs ys h = h
DistinctIds-posts (u ∷ us) vs v xs ys h =
    let (l, m, r) =
      All-split (λ x. (x.cast.vote.id == u.cast.vote.id) ≡ false) us (waiting v xs) vs h.0 in
    (
      All-join (λ x. (x.cast.vote.id == u.cast.vote.id) ≡ false) us (waiting v ys) vs l m r,
      DistinctIds-posts us vs v xs ys h.1,
    )

middle : (x : Event) (l r : List Event) → Permᴰ (x ∷ (l ++ r)) (l ++ x ∷ r)
middle x [] r = Permᴰ.refl (x ∷ r)
middle x (y ∷ l) r = Permᴰ.trans (Permᴰ.swap refl refl) (Permᴰ.cons refl (middle x l r))

shift : (t l r : List Event) → Permᴰ (t ++ (l ++ r)) (l ++ (t ++ r))
shift [] l r = Permᴰ.refl (l ++ r)
shift (x ∷ t) l r = Permᴰ.trans (Permᴰ.cons refl (shift t l r)) (middle x l (t ++ r))

append_assoc : (us vs ws : List Event) → (us ++ vs) ++ ws ≡ us ++ (vs ++ ws)
append_assoc [] vs ws = refl
append_assoc (u ∷ us) vs ws = ap (λ l. u ∷ l) (append_assoc us vs ws)

module _ (p : Platform) (o : Oracle) (a : ActiveSecretSharing) (n : Network) where
  abbrev pub all_due : List Waiting → List Event
  all_due [] = []
  all_due (w ∷ ws) = due p o a n w ++ all_due ws

  all_due-append : (us vs : List Waiting) → all_due (us ++ vs) ≡ all_due us ++ all_due vs
  all_due-append [] vs = refl
  all_due-append (u ∷ us) vs =
      ap (λ l. due p o a n u ++ l) (all_due-append us vs)
      ∙ sym (append_assoc (due p o a n u) (all_due us) (all_due vs))

  all_due-ended : (ws : List Waiting) → All (λ w. w.posts ≡ []) ws → all_due ws ≡ []
  all_due-ended [] h = refl
  all_due-ended (w ∷ ws) h =
      ap (λ l. l ++ all_due ws) (ap (λ (xs : List Post). due p o a n (waiting w.cast xs)) h.0)
      ∙ all_due-ended ws h.1

  -- What a step tells comes out of what is due.
  told-perm :
      (us vs : List Waiting) (v : Cast) (x : Post) (xs : List Post) (told es : List Event)
      → told ++ due p o a n (waiting v xs) ≡ event p o a n v ∷ []
      → Permᴰ es (all_due (us ++ waiting v xs ∷ vs))
      → Permᴰ (told ++ es) (all_due (us ++ waiting v (x ∷ xs) ∷ vs))
  told-perm us vs v x xs told es split d =
      let d1 : Permᴰ es (all_due us ++ (due p o a n (waiting v xs) ++ all_due vs)) =
        subst (Permᴰ es) (all_due-append us (waiting v xs ∷ vs)) d in
      let e : all_due us ++ (told ++ (due p o a n (waiting v xs) ++ all_due vs))
          ≡ all_due (us ++ waiting v (x ∷ xs) ∷ vs) =
        ap (λ l. all_due us ++ l)
          (sym (append_assoc told (due p o a n (waiting v xs)) (all_due vs))
            ∙ ap (λ l. l ++ all_due vs) split)
        ∙ sym (all_due-append us (waiting v (x ∷ xs) ∷ vs)) in
      subst (Permᴰ (told ++ es)) e (
        Permᴰ.trans (Permᴰ.append_left told d1)
          (shift told (all_due us) (due p o a n (waiting v xs) ++ all_due vs)))

  Ready-All :
      (m m' : Network) (v : Cast) (ws : List Waiting)
      → Leaves (here p o a n v) m m'
      → All (λ u. (u.cast.vote.id == v.vote.id) ≡ false) ws
      → All (Ready p o a n m) ws
      → All (Ready p o a n m') ws
  Ready-All m m' v [] leaves other h = tt
  Ready-All m m' v (w ∷ ws) leaves other h =
      (Ready-kept p o a n m m' v w leaves other.0 h.0, Ready-All m m' v ws leaves other.1 h.1)

  pub run_schedule-from :
      (m : Network) {ws : List Waiting} {schedule : List (Cast × Post)}
      → Interleaves ws schedule
      → ((v : Cast) → Same (here p o a n v) m)
      → DistinctIds ws
      → All (Ready p o a n m) ws
      → (m' : Network) × (es : List Event) × (run_schedule p o a n m schedule ≡ done m')
        × (m'.observed ≡ m.observed ++ es)
        × Permᴰ es (all_due ws)
  unfolding run_schedule
  run_schedule-from m {ws = ws} (ended none_left) same distinct ready = (
    m,
    [],
    refl,
    sym (append_nil p o a n m.observed),
    subst (Permᴰ []) (sym (all_due-ended ws none_left)) (Permᴰ.refl []),
  )
  run_schedule-from m {ws = ws} (next us vs v x xs e more) same distinct ready =
      let distinct' = subst DistinctIds e distinct in
      let (before, k, after) =
        All-split (Ready p o a n m) us (waiting v (x ∷ xs)) vs
          (subst (All (Ready p o a n m)) e ready) in
      let (m1, run, s) = post-Stepped p o a n m v x xs (same v) k in
      let (left, right) = others us vs (waiting v (x ∷ xs)) distinct' in
      let (m', es, run', seen, due_es) =
        run_schedule-from m1 more (λ w. Same-at p o a n v w n.observed n.observed m1 s.leaves.same)
          (DistinctIds-posts us vs v (x ∷ xs) xs distinct')
          (All-join (Ready p o a n m1) us (waiting v xs) vs
            (Ready-All m m1 v us s.leaves left before) s.ready
            (Ready-All m m1 v vs s.leaves right after)) in
      (
        m',
        s.told ++ es,
        rw run run',
        seen ∙ ap (λ l. l ++ es) s.observed ∙ append_assoc m.observed s.told es,
        subst (Permᴰ (s.told ++ es)) (ap all_due (sym e))
            (told-perm us vs v x xs s.told es s.split due_es),
      )
