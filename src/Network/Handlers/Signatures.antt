-- ===== src/Network/Handlers/Signatures.antt =====
-- server/src/NetworkHTTPSImpl.go: the signatures that a server counts when it receives the share of
-- another server, findNewSignatures and the loop of ReceiveServerShare.
use digital_election_system.Common.{
  ℕ, ◌≡◌, refl, sym, ap, ◌∙◌, subst, Bool, true, false, Bool-cases, inl, inr, Option, none, some,
  List, [], ◌∷◌, ◌++◌, ℤ, if◌then◌else◌, All,
}
use mathlib.Core.Bool.{true≢false}
use digital_election_system.Commitment.{ActiveSecretSharing}
use digital_election_system.Knowledge.{Oracle, equal}
use digital_election_system.Knowledge.Equal.{equal_sound, equal_self}
use digital_election_system.Network.{
  done, ◌>=>◌, must, Signature, SignedEncryptedShare, EncryptedShareSeenFrom, IpStruct, Network,
  Platform, lookup_sender, seen, mark_seen,
}
use digital_election_system.Network.Store.{step-done, done_inj}
use digital_election_system.Network.Handlers.{has_sender, server_at, verify_signatures}

marked-lem :
    (k : ℤ) (e : EncryptedShareSeenFrom) {e' : EncryptedShareSeenFrom}
    (o : Option (List (ℤ × Bool)))
    → (must o >=> (λ m. done (record e { signatures_seen_from = some ((k, true) ∷ m) }))) ≡ done e'
    → (j : ℤ)
    → seen j e' ≡ (if equal j k then true else elim o [ none ↦ false | some m ↦ lookup_sender j m ])
unfolding seen lookup_sender
marked-lem k e none h j = cc
marked-lem k e (some m) h j = ap (seen j) (sym (done_inj h))

seen-mark_seen :
    (k : ℤ) (e : EncryptedShareSeenFrom) {e' : EncryptedShareSeenFrom}
    → mark_seen k true e ≡ done e'
    → (j : ℤ) → seen j e' ≡ (if equal j k then true else seen j e)
unfolding mark_seen seen
seen-mark_seen k e h j = marked-lem k e e.signatures_seen_from h j

-- A signature that is counted: its sender is a server whose key verifies it, and is marked as seen.
pub record IsCounted (p : Platform) (n : Network) (hash : List ℕ) (e : EncryptedShareSeenFrom)
    (v : Signature) : Type 0 where
  pub known :
      (ip : IpStruct) × (server_at v.sender n ≡ done ip)
      × (p.verify ip.public_key hash v.sign ≡ true)
  pub marked : seen v.sender e ≡ true

-- No two signatures have the same sender.
unfoldable pub Unique : List Signature → Type 0
Unique [] = Unit
Unique (v ∷ signatures) = (has_sender v.sender signatures ≡ false) × Unique signatures

IsCounted-mark_seen :
    (p : Platform) (n : Network) (hash : List ℕ) (e : EncryptedShareSeenFrom)
    {e' : EncryptedShareSeenFrom} (k : ℤ)
    → mark_seen k true e ≡ done e'
    → (signatures : List Signature) → All (IsCounted p n hash e) signatures
    → All (IsCounted p n hash e') signatures
IsCounted-mark_seen p n hash e k h [] counted = tt
IsCounted-mark_seen p n hash e k h (v ∷ rest) (c, counted) = (
  record {
    known = c.known;
    marked = seen-mark_seen k e h v.sender ∙ rw c.marked (if_true (equal v.sender k));
  },
  IsCounted-mark_seen p n hash e k h rest counted,
)
  where
    if_true : (b : Bool) → (if b then true else true) ≡ true
    if_true true = refl
    if_true false = refl

-- A sender that is not seen has no signature among those counted.
has_sender-counted :
    (p : Platform) (n : Network) (hash : List ℕ) (e : EncryptedShareSeenFrom) (k : ℤ)
    → seen k e ≡ false
    → (signatures : List Signature) → All (IsCounted p n hash e) signatures
    → has_sender k signatures ≡ false
unfolding has_sender
has_sender-counted p n hash e k unseen [] counted = refl
has_sender-counted p n hash e k unseen (v ∷ rest) (c, counted) =
    elim (Bool-cases (equal k v.sender)) [
      | inl same ↦ absurd (
          true≢false (
            sym (subst (λ (j : ℤ). seen j e ≡ true) (sym (equal_sound k v.sender same)) c.marked)
            ∙ unseen))
      | inr other ↦ rw other (has_sender-counted p n hash e k unseen rest counted)
    ]

has_sender-append :
    (k : ℤ) (v : Signature) (signatures : List Signature)
    → equal k v.sender ≡ false
    → has_sender k signatures ≡ false
    → has_sender k (signatures ++ v ∷ []) ≡ false
unfolding has_sender
has_sender-append k v [] other h = rw other refl
has_sender-append k v (w ∷ rest) other h = elim (Bool-cases (equal k w.sender)) [
  | inl same ↦ absurd (true≢false (sym (rw same refl) ∙ h))
  | inr apart ↦ rw apart (has_sender-append k v rest other (sym (rw apart refl) ∙ h))
]

equal_sym : (a b : ℤ) → equal a b ≡ false → equal b a ≡ false
equal_sym a b h = elim (Bool-cases (equal b a)) [
  | inl same ↦ absurd (
      true≢false
        (sym (subst (λ (c : ℤ). equal c b ≡ true) (equal_sound b a same) (equal_self b)) ∙ h))
  | inr other ↦ other
]

has_sender-tail :
    (k : ℤ) (w : Signature) (rest : List Signature)
    → has_sender k (w ∷ rest) ≡ false
    → (equal k w.sender ≡ false) × (has_sender k rest ≡ false)
unfolding has_sender
has_sender-tail k w rest h = elim (Bool-cases (equal k w.sender)) [
  | inl same ↦ absurd (true≢false (sym (rw same refl) ∙ h))
  | inr apart ↦ (apart, sym (rw apart refl) ∙ h)
]

Unique-append :
    (v : Signature) (signatures : List Signature)
    → has_sender v.sender signatures ≡ false
    → Unique signatures
    → Unique (signatures ++ v ∷ [])
unfolding Unique has_sender
Unique-append v [] h u = (refl, tt)
Unique-append v (w ∷ rest) h (once, u) =
    let (apart, new) = has_sender-tail v.sender w rest h in
    (
      has_sender-append w.sender v rest (equal_sym v.sender w.sender apart) once,
      Unique-append v rest new u,
    )

All-append {ℓ κ} :
    {A : Type ℓ} (P : A → Type κ) (x : A) (l : List A) → P x → All P l → All P (l ++ x ∷ [])
All-append P x [] h t = (h, tt)
All-append P x (y ∷ l) h (k, t) = (k, All-append P x l h t)

-- The loop of ReceiveServerShare keeps what is counted for a hash: every signature is verified by the
-- key of the server that it names, that server is marked as seen, and no server signs twice. This
-- holds when the loop ends if it holds when it starts.
pub verify_signatures-Unique :
    (p : Platform) (o : Oracle) (a : ActiveSecretSharing) (n : Network) (hash : List ℕ)
    (new : List Signature) (s s' : SignedEncryptedShare) (e e' : EncryptedShareSeenFrom)
    (found found' : Bool)
    → Unique s.signatures
    → All (IsCounted p n hash e) s.signatures
    → verify_signatures p o a n hash new s e found ≡ done (s', e', found')
    → Unique s'.signatures × All (IsCounted p n hash e') s'.signatures
unfolding verify_signatures
verify_signatures-Unique p o a n hash [] s s' e e' found found' unique counted h =
    subst
      (λ (r : SignedEncryptedShare × EncryptedShareSeenFrom × Bool).
        Unique r.0.signatures × All (IsCounted p n hash r.1) r.0.signatures)
      (done_inj h) (unique, counted)
verify_signatures-Unique p o a n hash (v ∷ rest) s s' e e' found found' unique counted h =
    elim (Bool-cases (seen v.sender e)) [
      | inl old ↦
          verify_signatures-Unique p o a n hash rest s s' e e' found found' unique counted
            (rw old at h)
      | inr unseen ↦
          let (ip, at_ip, checked) = step-done (server_at v.sender n) (rw unseen at h) in
          elim (Bool-cases (p.verify ip.public_key hash v.sign)) [
            | inl valid ↦
                let (e1, marked, went) =
                  step-done (mark_seen v.sender true e) (rw valid at checked) in
                verify_signatures-Unique p o a n hash rest
                  (record s { signatures = s.signatures ++ v ∷ [] }) s' e1 e' true found'
                  (Unique-append v s.signatures
                    (has_sender-counted p n hash e v.sender unseen s.signatures counted) unique)
                  (All-append (IsCounted p n hash e1) v s.signatures
                    (record {
                      known = (ip, at_ip, valid);
                      marked =
                          seen-mark_seen v.sender e marked v.sender ∙ rw (equal_self v.sender) refl;
                    })
                    (IsCounted-mark_seen p n hash e v.sender marked s.signatures counted))
                  went
            | inr invalid ↦
                verify_signatures-Unique p o a n hash rest s s' e e' found found' unique counted
                  (rw invalid at checked)
          ]
    ]
