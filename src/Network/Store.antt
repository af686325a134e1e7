-- ===== src/Network/Store.antt =====
-- server/src/NetworkHTTPSImpl.go: the map of the entries, its locks, and steps that end.
use digital_election_system.Common.{
  ℕ, ◌+◌, ◌≡◌, refl, sym, ap, ◌∙◌, subst, Bool, true, false, Bool-cases, inl, inr, Option, none,
  some, List, [], ◌∷◌, ℤ, ◌==◌, ==_iff, if◌then◌else◌, arith,
}
use digital_election_system.Network.{
  Outcome, done, panicked, deadlocked, ◌>=>◌, must, EncryptedShareSeenFrom, SignedEncryptedShare,
  lookup_id, store_id, lock, unlock, mark_seen, receive,
}

-- The value that a step leaves when the rest ends.
pub step-done {ℓ κ} :
    {A : Type ℓ} {B : Type κ} {f : A → Outcome B} {b : B} (x : Outcome A)
    → (x >=> f) ≡ done b
    → (a : A) × (x ≡ done a) × (f a ≡ done b)
step-done (done a) h = (a, refl, h)
step-done panicked h = cc
step-done deadlocked h = cc

abbrev left {ℓ} : {A : Type ℓ} → A → Outcome A → A
left x (done a) = a
left x panicked = x
left x deadlocked = x

pub done_inj {ℓ} : {A : Type ℓ} {a b : A} → done a ≡ done b → a ≡ b
done_inj {a = a} h = ap (left a) h

pub lookup_id-store_id :
    (k : ℕ) (e : EncryptedShareSeenFrom) (m : List (ℕ × EncryptedShareSeenFrom))
    → lookup_id k (store_id k e m) ≡ some e
unfolding lookup_id store_id
lookup_id-store_id k e [] = rw ((==_iff k k).1 refl) refl
lookup_id-store_id k e ((j, e') ∷ m) = elim (Bool-cases (k == j)) [
  | inl same ↦ rw (same, same) refl
  | inr other ↦ rw (other, other) (lookup_id-store_id k e m)
]

pub must-done {ℓ} : {A : Type ℓ} (x : Option A) {a : A} → must x ≡ done a → x ≡ some a
must-done none h = cc
must-done (some b) h = ap some (done_inj h)

pub if-done {ℓ} :
    {A : Type ℓ} {x : Outcome A} {a : A} (b : Bool)
    → (if b then x else panicked) ≡ done a
    → x ≡ done a
if-done true h = h
if-done false h = cc

pub lookup_id-store_id_other :
    (j k : ℕ) (e : EncryptedShareSeenFrom) (m : List (ℕ × EncryptedShareSeenFrom))
    → (j == k) ≡ false
    → lookup_id j (store_id k e m) ≡ lookup_id j m
unfolding lookup_id store_id
lookup_id-store_id_other j k e [] h = rw h refl
lookup_id-store_id_other j k e ((i, e') ∷ m) h = elim (Bool-cases (k == i)) [
  | inl same ↦
      let other : (j == i) ≡ false = subst (λ (t : ℕ). (j == t) ≡ false) ((==_iff k i).0 same) h in
      rw (same, other) refl
  | inr other ↦ elim (Bool-cases (j == i)) [
    | inl here ↦ rw (other, here) refl
    | inr past ↦ rw (other, past) (lookup_id-store_id_other j k e m h)
  ]
]

-- Whether the entry of an id, if there is one, is delivered.
unfoldable pub delivered_at : ℕ → List (ℕ × EncryptedShareSeenFrom) → Bool
delivered_at k m = elim (lookup_id k m) [ none ↦ false | some e ↦ e.delivered ]

abbrev pub bit : Bool → ℕ
bit true = 1
bit false = 0

-- How many entries are delivered.
unfoldable pub delivered_entries : List (ℕ × EncryptedShareSeenFrom) → ℕ
delivered_entries [] = 0
delivered_entries ((k, e) ∷ m) = bit e.delivered + delivered_entries m

-- No id has two entries.
unfoldable pub UniqueIds : List (ℕ × EncryptedShareSeenFrom) → Type 0
UniqueIds [] = Unit
UniqueIds ((k, e) ∷ m) = (lookup_id k m ≡ none) × UniqueIds m

pub delivered_at-store_id :
    (j k : ℕ) (e : EncryptedShareSeenFrom) (m : List (ℕ × EncryptedShareSeenFrom))
    → e.delivered ≡ delivered_at k m
    → delivered_at j (store_id k e m) ≡ delivered_at j m
unfolding delivered_at
delivered_at-store_id j k e m h = elim (Bool-cases (j == k)) [
  | inl same ↦
      subst (λ (i : ℕ). delivered_at i (store_id k e m) ≡ delivered_at i m)
        (sym ((==_iff j k).0 same)) (rw (delivered_at, lookup_id-store_id k e m) h)
  | inr other ↦ rw (delivered_at, lookup_id-store_id_other j k e m other) refl
]

pub delivered_entries-store_id :
    (k : ℕ) (e : EncryptedShareSeenFrom) (m : List (ℕ × EncryptedShareSeenFrom))
    → delivered_entries (store_id k e m) + bit (delivered_at k m)
      ≡ delivered_entries m + bit e.delivered
unfolding delivered_entries delivered_at store_id lookup_id
delivered_entries-store_id k e [] = omega arith
delivered_entries-store_id k e ((i, e') ∷ m) = elim (Bool-cases (k == i)) [
  | inl same ↦
      let at_k : delivered_at k ((i, e') ∷ m) ≡ e'.delivered =
        rw (delivered_at, lookup_id, same) refl in
      rw (at_k, same) (omega arith)
  | inr other ↦
      let at_k : delivered_at k ((i, e') ∷ m) ≡ delivered_at k m =
        rw (delivered_at, lookup_id, other) refl in
      rw (at_k, other) (omega (arith, delivered_entries-store_id k e m))
]

pub UniqueIds-store_id :
    (k : ℕ) (e : EncryptedShareSeenFrom) (m : List (ℕ × EncryptedShareSeenFrom))
    → UniqueIds m
    → UniqueIds (store_id k e m)
unfolding UniqueIds store_id lookup_id
UniqueIds-store_id k e [] u = (refl, tt)
UniqueIds-store_id k e ((i, e') ∷ m) (new, u) = elim (Bool-cases (k == i)) [
  | inl same ↦ rw same (new, u)
  | inr other ↦
      rw other
        (lookup_id-store_id_other i k e m (==_sym k i other) ∙ new, UniqueIds-store_id k e m u)
]
  where
    ==_sym : (x y : ℕ) → (x == y) ≡ false → (y == x) ≡ false
    ==_sym x y h = ground arith

-- What the locks and the maps of an entry leave alone.
pub lock-delivered :
    (e : EncryptedShareSeenFrom) {e' : EncryptedShareSeenFrom}
    → lock e ≡ done e'
    → e'.delivered ≡ e.delivered
unfolding lock
lock-delivered e h = elim (Bool-cases e.locked) [
  | inl held ↦
      let bad : ◌≡◌ {A = Outcome EncryptedShareSeenFrom} deadlocked (done _) =
        rw (lock, held) at h in
      cc
  | inr free ↦
      ap (λ (x : EncryptedShareSeenFrom). x.delivered) (sym (done_inj (rw (lock, free) at h)))
]

pub unlock-delivered :
    (e : EncryptedShareSeenFrom) {e' : EncryptedShareSeenFrom}
    → unlock e ≡ done e'
    → e'.delivered ≡ e.delivered
unfolding unlock
unlock-delivered e h = elim (Bool-cases e.locked) [
  | inl held ↦
      ap (λ (x : EncryptedShareSeenFrom). x.delivered) (sym (done_inj (rw (unlock, held) at h)))
  | inr free ↦
      let bad : ◌≡◌ {A = Outcome EncryptedShareSeenFrom} panicked (done _) =
        rw (unlock, free) at h in
      cc
]

pub mark_seen-delivered :
    (k : ℤ) (b : Bool) (e : EncryptedShareSeenFrom) {e' : EncryptedShareSeenFrom}
    → mark_seen k b e ≡ done e'
    → e'.delivered ≡ e.delivered
unfolding mark_seen
mark_seen-delivered k b e h =
    let (m, _, h1) = step-done (must e.signatures_seen_from) h in
    ap (λ (x : EncryptedShareSeenFrom). x.delivered) (sym (done_inj h1))

pub receive-delivered :
    (hash : List ℕ) (s : SignedEncryptedShare) (e : EncryptedShareSeenFrom)
    {e' : EncryptedShareSeenFrom}
    → receive hash s e ≡ done e'
    → e'.delivered ≡ e.delivered
unfolding receive
receive-delivered hash s e h =
    let (m, _, h1) = step-done (must e.shares_received) h in
    ap (λ (x : EncryptedShareSeenFrom). x.delivered) (sym (done_inj h1))
