-- ===== src/Network/Connections/Reuse.antt =====
-- server/src/NetworkHTTPSImpl.go: createClient called again for an address.
use digital_election_system.Common.{
  ℕ, ◌≡◌, refl, sym, subst, true, Option, Option-cases, none, some, List, [], ◌∷◌, ◌++◌,
  if◌then◌else◌, ==_iff, inl, inr,
}
use digital_election_system.Network.{IpStruct, same_text}
use digital_election_system.Network.Connections.{ClientHolder, address, last_holder, create_client}

pub same_text_self : (l : List ℕ) → same_text l l ≡ true
unfolding same_text
same_text_self [] = refl
same_text_self (x ∷ l) = rw ((==_iff x x).1 refl) (same_text_self l)

last_holder-append :
    (str : List ℕ) (clients : List ClientHolder) (v : ClientHolder) (holder : Option ClientHolder)
    → v.ip_port ≡ str
    → last_holder str (clients ++ v ∷ []) holder ≡ some v
unfolding last_holder
last_holder-append str [] v holder h = rw (h, same_text_self str) refl
last_holder-append str (w ∷ clients) v holder h =
    last_holder-append str clients v (if same_text str w.ip_port then some w else holder) h

-- The second createClient for a server gives what the first gave, and makes no connection.
pub create_client-again :
    (ip : IpStruct) (new again : ℕ) (clients : List ClientHolder)
    → create_client ip again (create_client ip new clients).1
      ≡ ((create_client ip new clients).0, (create_client ip new clients).1)
unfolding create_client
create_client-again ip new again clients =
    elim (Option-cases (last_holder (address ip.ip ip.port) clients none)) [
      | inl missing ↦
          let made : ClientHolder = record {
            client = some new;
            rpc_client = none;
            ip_port = address ip.ip ip.port;
          } in
          let first : create_client ip new clients ≡ (some new, clients ++ made ∷ []) =
            rw (create_client, missing) refl in
          let second : create_client ip again (clients ++ made ∷ [])
              ≡ (some new, clients ++ made ∷ []) =
            rw (create_client, last_holder-append (address ip.ip ip.port) clients made none refl)
              refl in
          subst (λ (r : Option ℕ × List ClientHolder). create_client ip again r.1 ≡ (r.0, r.1))
            (sym first) second
      | inr (v, is_there) ↦
          let first : create_client ip new clients ≡ (v.client, clients) =
            rw (create_client, is_there) refl in
          let second : create_client ip again clients ≡ (v.client, clients) =
            rw (create_client, is_there) refl in
          subst (λ (r : Option ℕ × List ClientHolder). create_client ip again r.1 ≡ (r.0, r.1))
            (sym first) second
    ]
