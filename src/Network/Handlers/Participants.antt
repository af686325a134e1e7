-- ===== src/Network/Handlers/Participants.antt =====
-- server/src/NetworkHTTPSImpl.go: the list of servers that newParticipantInNetwork keeps.
use digital_election_system.Common.{
  ℕ, ◌≡◌, refl, sym, subst, Bool, true, false, Bool-cases, inl, inr, List, [], ◌∷◌, ◌++◌, ◌&&◌,
  ◌||◌, ==_iff,
}
use digital_election_system.Network.{IpStruct, Network, same_text}
use digital_election_system.Network.Participants.{knows, new_participant_in_network}

same_text_self : (l : List ℕ) → same_text l l ≡ true
unfolding same_text
same_text_self [] = refl
same_text_self (x ∷ l) = rw ((==_iff x x).1 refl) (same_text_self l)

knows-append : (ips : List IpStruct) (ip : IpStruct) → knows (ips ++ ip ∷ []) ip ≡ true
unfolding knows
knows-append [] ip = rw (same_text_self ip.ip, same_text_self ip.port) refl
knows-append (v ∷ ips) ip =
    rw (knows-append ips ip) (or_true (same_text ip.ip v.ip && same_text ip.port v.port))
  where
    or_true : (b : Bool) → (b || true) ≡ true
    or_true true = refl
    or_true false = refl

known-again :
    (n : Network) (ip : IpStruct) → knows n.ip_list ip ≡ true → new_participant_in_network n ip ≡ n
unfolding new_participant_in_network
known-again n ip h = rw (new_participant_in_network, h) refl

knows-new_participant_in_network :
    (n : Network) (ip : IpStruct) → knows (new_participant_in_network n ip).ip_list ip ≡ true
unfolding new_participant_in_network
knows-new_participant_in_network n ip = elim (Bool-cases (knows n.ip_list ip)) [
  | inl old ↦ subst (λ (m : Network). knows m.ip_list ip ≡ true) (sym (known-again n ip old)) old
  | inr new ↦ rw (new_participant_in_network, new) (knows-append n.ip_list ip)
]

-- A server that hears of a new participant again changes nothing and sends nothing.
pub new_participant_in_network-again :
    (n : Network) (ip : IpStruct)
    → new_participant_in_network (new_participant_in_network n ip) ip
      ≡ new_participant_in_network n ip
new_participant_in_network-again n ip =
    known-again (new_participant_in_network n ip) ip (knows-new_participant_in_network n ip)
