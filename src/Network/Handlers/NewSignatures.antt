-- ===== src/Network/Handlers/NewSignatures.antt =====
-- server/src/NetworkHTTPSImpl.go: the signatures that findNewSignatures keeps of those received.
use digital_election_system.Common.{
  ◌≡◌, ◌≢◌, ◌↔◌, ◌⊎◌, refl, sym, ap, ◌∙◌, subst, Bool, true, false, Bool-cases, inl, inr, Option,
  none, some, List, [], ◌∷◌, ℤ, if◌then◌else◌, All,
}
use mathlib.Core.List.{Memᴰ}
use mathlib.Core.List.Memᴰ.{head, tail}
use mathlib.Core.Bool.{true≢false}
use digital_election_system.Knowledge.{equal}
use digital_election_system.Knowledge.Equal.{equal_sound, equal_self}
use digital_election_system.Network.{Signature, EncryptedShareSeenFrom, lookup_sender, seen}
use digital_election_system.Network.Handlers.{has_sender, find_new_signatures}

Mem-cases {ℓ} : {A : Type ℓ} {x y : A} {l : List A} → Memᴰ x (y ∷ l) → (x ≡ y) ⊎ Memᴰ x l
Mem-cases (head same) = inl same
Mem-cases (tail t) = inr t

find_new_signatures-Mem :
    (received local : List Signature) (e : EncryptedShareSeenFrom) {v : Signature}
    → Memᴰ v (find_new_signatures received local e)
    → Memᴰ v received × (seen v.sender e ≡ false) × (has_sender v.sender local ≡ false)
unfolding find_new_signatures
find_new_signatures-Mem [] local e h = elim h [ ]
find_new_signatures-Mem (w ∷ rest) local e {v = v} h = elim (Bool-cases (seen w.sender e)) [
  | inl old ↦ later (find_new_signatures-Mem rest local e (rw old at h))
  | inr unseen ↦ elim (Bool-cases (has_sender w.sender local)) [
    | inl known ↦ later (find_new_signatures-Mem rest local e (rw (unseen, known) at h))
    | inr new ↦ elim (Mem-cases (rw (unseen, new) at h)) [
      | inl same ↦ (
        head same,
        ap (λ (u : Signature). seen u.sender e) same ∙ unseen,
        ap (λ (u : Signature). has_sender u.sender local) same ∙ new,
      )
      | inr t ↦ later (find_new_signatures-Mem rest local e t)
    ]
  ]
]
  where
    later :
        Memᴰ v rest × (seen v.sender e ≡ false) × (has_sender v.sender local ≡ false)
        → Memᴰ v (w ∷ rest) × (seen v.sender e ≡ false) × (has_sender v.sender local ≡ false)
    later (m, u, k) = (tail m, u, k)

Mem-find_new_signatures :
    (received local : List Signature) (e : EncryptedShareSeenFrom) {v : Signature}
    → Memᴰ v received
    → seen v.sender e ≡ false
    → has_sender v.sender local ≡ false
    → Memᴰ v (find_new_signatures received local e)
unfolding find_new_signatures
Mem-find_new_signatures [] local e m u k = elim m [ ]
Mem-find_new_signatures (w ∷ rest) local e {v = v} (head same) u k =
    subst
      (λ b. Memᴰ v (
        if b
        then find_new_signatures rest local e
        else (if has_sender w.sender local
            then find_new_signatures rest local e
            else w ∷ find_new_signatures rest local e)))
      (sym (ap (λ (x : Signature). seen x.sender e) (sym same) ∙ u))
      (rw (ap (λ (x : Signature). has_sender x.sender local) (sym same) ∙ k) (head same))
Mem-find_new_signatures (w ∷ rest) local e (tail t) u k = elim (Bool-cases (seen w.sender e)) [
  | inl old ↦ rw old (Mem-find_new_signatures rest local e t u k)
  | inr unseen ↦ elim (Bool-cases (has_sender w.sender local)) [
    | inl known ↦ rw (unseen, known) (Mem-find_new_signatures rest local e t u k)
    | inr new ↦ rw (unseen, new) (tail (Mem-find_new_signatures rest local e t u k))
  ]
]

-- The last write to a map for the key is true.
pub data MarkedIn (k : ℤ) : List (ℤ × Bool) → Type 0 where
  marked_last : {j : ℤ} {m : List (ℤ × Bool)} → k ≡ j → MarkedIn k ((j, true) ∷ m)
  marked_before :
      {j : ℤ} {b : Bool} {m : List (ℤ × Bool)} → k ≢ j → MarkedIn k m → MarkedIn k ((j, b) ∷ m)

-- The entry has a map, and the sender is marked in it.
pub record Marked (k : ℤ) (e : EncryptedShareSeenFrom) : Type 0 where
  pub map : List (ℤ × Bool)
  pub is_map : e.signatures_seen_from ≡ some map
  pub is_in : MarkedIn k map

apart-equal : (k j : ℤ) → equal k j ≡ false → k ≢ j
apart-equal k j other same =
    true≢false (sym (equal_self j) ∙ subst (λ (i : ℤ). equal i j ≡ false) same other)

-- The two tests of the loop, said of the lists.
has_sender-All :
    (k : ℤ) (signatures : List Signature)
    → (has_sender k signatures ≡ false) ↔ All (λ (w : Signature). k ≢ w.sender) signatures
unfolding has_sender
has_sender-All k [] = (λ h. tt, λ h. refl)
has_sender-All k (w ∷ rest) = elim (Bool-cases (equal k w.sender)) [
  | inl same ↦ (
    λ h. absurd (true≢false (sym (rw same refl) ∙ h)),
    λ (apart, _). absurd (apart (equal_sound k w.sender same)),
  )
  | inr other ↦ (
    λ h. (apart-equal k w.sender other, (has_sender-All k rest).0 (sym (rw other refl) ∙ h)),
    λ (_, apart). rw other ((has_sender-All k rest).1 apart),
  )
]

lookup_sender-MarkedIn : (k : ℤ) (m : List (ℤ × Bool)) → MarkedIn k m → lookup_sender k m ≡ true
unfolding lookup_sender
lookup_sender-MarkedIn k [] h = elim h [ ]
lookup_sender-MarkedIn k ((j, true) ∷ m) (marked_last same) =
    rw (subst (λ (i : ℤ). equal k i ≡ true) same (equal_self k)) refl
lookup_sender-MarkedIn k ((j, b) ∷ m) (marked_before apart h) = elim (Bool-cases (equal k j)) [
  | inl same ↦ absurd (apart (equal_sound k j same))
  | inr other ↦ rw other (lookup_sender-MarkedIn k m h)
]

MarkedIn-lookup_sender : (k : ℤ) (m : List (ℤ × Bool)) → lookup_sender k m ≡ true → MarkedIn k m
unfolding lookup_sender
MarkedIn-lookup_sender k [] h = absurd (true≢false (sym h))
MarkedIn-lookup_sender k ((j, b) ∷ m) h = elim (Bool-cases (equal k j)) [
  | inl same ↦
      subst (λ (c : Bool). MarkedIn k ((j, c) ∷ m)) (sym (sym (rw same refl) ∙ h))
        (marked_last (equal_sound k j same))
  | inr other ↦
      marked_before (apart-equal k j other) (MarkedIn-lookup_sender k m (sym (rw other refl) ∙ h))
]

seen-Marked : (k : ℤ) (e : EncryptedShareSeenFrom) → (seen k e ≡ false) ↔ (¬ Marked k e)
unfolding seen
seen-Marked k e = (
  λ unseen marked. true≢false (
      sym (lookup_sender-MarkedIn k marked.map marked.is_in)
      ∙ sym (rw marked.is_map refl)
      ∙ unseen),
  λ unmarked. elim (Bool-cases (seen k e)) [
    | inr unseen ↦ unseen
    | inl old ↦ absurd (unmarked (Marked-map e.signatures_seen_from refl old))
  ],
)
  where
    Marked-map :
        (m : Option (List (ℤ × Bool))) → e.signatures_seen_from ≡ m → seen k e ≡ true → Marked k e
    Marked-map none is_map old = absurd (true≢false (sym old ∙ rw (seen, is_map) refl))
    Marked-map (some m) is_map old = record {
      map = m;
      is_map = is_map;
      is_in = MarkedIn-lookup_sender k m (sym (rw (seen, is_map) refl) ∙ old);
    }

-- findNewSignatures returns the signatures received whose sender is not marked in the entry's map and
-- sent none of the local signatures, and no other.
pub find_new_signatures_lem :
    (received local : List Signature) (e : EncryptedShareSeenFrom) (v : Signature)
    → Memᴰ v (find_new_signatures received local e)
      ↔ (Memᴰ v received × ¬ Marked v.sender e × All (λ (w : Signature). v.sender ≢ w.sender) local)
find_new_signatures_lem received local e v = (
  λ h.
      let (m, u, k) = find_new_signatures-Mem received local e h in
      (m, (seen-Marked v.sender e).0 u, (has_sender-All v.sender local).0 k),
  λ (m, u, k).
      Mem-find_new_signatures received local e m ((seen-Marked v.sender e).1 u)
        ((has_sender-All v.sender local).1 k),
)
