-- ===== src/Network/Membership.antt =====
-- server/src/NetworkHTTPSImpl.go: servers that join at one server, ParticipateInNetwork and joinNetwork, and
-- hear of the later ones by newParticipantInNetwork.
use mathlib.Core.List.{
  Memᴰ, Nodup, Nodup-cons, Perm, append_assoc, perm_middle, perm_append_singleton,
  perm_ext_iff_of_Nodup,
}
use mathlib.Core.List.Perm
use mathlib.Core.List.Memᴰ
use mathlib.Core.List.Nodup
use mathlib.Core.Logic.{∥∥₁_elim, ∥∥₁_map}
use digital_election_system.Common.{
  ◌≡◌, refl, sym, ap, ◌∙◌, subst, Bool, true, false, Bool-cases, inl, inr, ◌⊎◌, ◌&&◌, ◌||◌, some,
  List, [], ◌∷◌, ◌++◌,
}
use digital_election_system.Network.{IpStruct, Network, same_text}
use digital_election_system.Network.Participants.{knows, new_participant_in_network, join_network}
use digital_election_system.Network.Start.{participate_in_network}
use digital_election_system.Network.Connections.Reuse.{same_text_self}

-- The servers join one after the other.
unfoldable pub joins : Network → List IpStruct → Network
joins m [] = m
joins m (v ∷ vs) = joins (join_network m v).1 vs

-- A server hears of others.
unfoldable pub hear : Network → List IpStruct → Network
hear n [] = n
hear n (v ∷ vs) = hear (new_participant_in_network n v) vs

-- Servers with the same address and port are one server.
abbrev pub OneAddress : List IpStruct → Type 0
OneAddress us =
    (u w : IpStruct)
    → Memᴰ u us
    → Memᴰ w us
    → (same_text u.ip w.ip && same_text u.port w.port) ≡ true
    → u ≡ w

knows-found :
    (l : List IpStruct) (v : IpStruct)
    → knows l v ≡ true
    → (u : IpStruct) × Memᴰ u l × ((same_text v.ip u.ip && same_text v.port u.port) ≡ true)
unfolding knows
knows-found [] v h = cc
knows-found (u ∷ l) v h = elim (Bool-cases (same_text v.ip u.ip && same_text v.port u.port)) [
  | inl here ↦ (u, Memᴰ.head refl, here)
  | inr past ↦
      let (w, at, same) = knows-found l v (rw (knows, past) at h) in (w, Memᴰ.tail at, same)
]

knows-mem : (l : List IpStruct) (v : IpStruct) → Memᴰ v l → knows l v ≡ true
unfolding knows
knows-mem [] v at = elim at [ ]
knows-mem (u ∷ l) v (Memᴰ.head e) =
    subst (λ (w : IpStruct). knows (w ∷ l) v ≡ true) e
      (rw (same_text_self v.ip, same_text_self v.port) refl)
knows-mem (u ∷ l) v (Memᴰ.tail at) =
    rw (knows-mem l v at) (or_true (same_text v.ip u.ip && same_text v.port u.port))
  where
    or_true : (b : Bool) → (b || true) ≡ true
    or_true true = refl
    or_true false = refl

-- The list has servers of U only, and none twice.
pub record Kept (us : List IpStruct) (n : Network) : Type 0 where
  pub within : (v : IpStruct) → Memᴰ v n.ip_list → Memᴰ v us
  pub once : Nodup n.ip_list

Nodup-snoc : (l : List IpStruct) (v : IpStruct) → Nodup l → (Memᴰ v l → ⊥) → Nodup (l ++ v ∷ [])
Nodup-snoc l v h new =
    Perm.nodup (Perm.symm (perm_append_singleton v l))
      (Nodup-cons.1 ((λ m. ∥∥₁_elim m (λ x y. absurd x) new), h))

hear-Kept :
    (us : List IpStruct) (n : Network) (v : IpStruct)
    → OneAddress us
    → Memᴰ v us
    → Kept us n
    → Kept us (new_participant_in_network n v)
      × ((u : IpStruct) → Memᴰ u n.ip_list → Memᴰ u (new_participant_in_network n v).ip_list)
      × Memᴰ v (new_participant_in_network n v).ip_list
unfolding new_participant_in_network
hear-Kept us n v one in_us k = elim (Bool-cases (knows n.ip_list v)) [
  | inl old ↦
      let (u, at, same) = knows-found n.ip_list v old in
      let v_at : Memᴰ v n.ip_list =
        subst (λ (w : IpStruct). Memᴰ w n.ip_list) (sym (one v u in_us (k.within u at) same)) at in
      rw (new_participant_in_network, old) (k, (λ u m. m), v_at)
  | inr new ↦
      rw (new_participant_in_network, new)
        (
          record {
            within = λ u m. elim (Memᴰ.append_cases n.ip_list m) [
              | inl before ↦ k.within u before
              | inr last ↦
                  subst (λ (w : IpStruct). Memᴰ w us) (sym (Memᴰ.eq_of_singleton last)) in_us
            ];
            once =
                Nodup-snoc n.ip_list v k.once (λ m. not_both (sym new ∙ knows-mem n.ip_list v m));
          },
          (λ u m. Memᴰ.append_left (v ∷ []) m),
          Memᴰ.append_right n.ip_list (Memᴰ.head refl),
        )
]
  where
    not_both : false ≡ true → ⊥
    not_both h = absurd (cc)

hear_all-Kept :
    (us : List IpStruct) (n : Network) (ms : List IpStruct)
    → OneAddress us
    → ((v : IpStruct) → Memᴰ v ms → Memᴰ v us)
    → Kept us n
    → Kept us (hear n ms)
      × ((u : IpStruct) → Memᴰ u n.ip_list ⊎ Memᴰ u ms → Memᴰ u (hear n ms).ip_list)
unfolding hear
hear_all-Kept us n [] one inside k =
    (k, λ u m. elim m [ inl at ↦ at | inr none_left ↦ elim none_left [ ] ])
hear_all-Kept us n (v ∷ ms) one inside k =
    let (k', keeps, heard) = hear-Kept us n v one (inside v (Memᴰ.head refl)) k in
    let (k'', all) =
      hear_all-Kept us (new_participant_in_network n v) ms one (λ u m. inside u (Memᴰ.tail m)) k' in
    (
      k'',
      λ u m. elim m [
        | inl at ↦ all u (inl (keeps u at))
        | inr at ↦ elim (Memᴰ.cases_cons at) [
          | inl e ↦ all u (
              inl (
                subst (λ (w : IpStruct). Memᴰ w (new_participant_in_network n v).ip_list) (sym e)
                  heard))
          | inr later ↦ all u (inr later)
        ]
      ],
    )

joins-list : (m : Network) (vs : List IpStruct) → (joins m vs).ip_list ≡ m.ip_list ++ vs
unfolding joins join_network
joins-list m [] = sym (append_nil m.ip_list)
  where
    append_nil : (l : List IpStruct) → l ++ [] ≡ l
    append_nil [] = refl
    append_nil (u ∷ l) = ap (λ r. u ∷ r) (append_nil l)
joins-list m (v ∷ vs) = joins-list (join_network m v).1 vs ∙ append_snoc m.ip_list
  where
    append_snoc : (l : List IpStruct) → (l ++ v ∷ []) ++ vs ≡ l ++ v ∷ vs
    append_snoc [] = refl
    append_snoc (u ∷ l) = ap (λ r. u ∷ r) (append_snoc l)

-- A server s joins at a server m after the servers us, and the servers vs join there after it. The reply to
-- ParticipateInNetwork is added to the own address, and then s hears of servers, in any order and as
-- often as may be, of all those that joined later and of none that did not join. Then the lists of s
-- and of m have the same servers, each of them once. No server joins twice, or was known to m before
-- it joined, and servers with the same address and port are one server.
pub hear-joins :
    (m n : Network) (us vs ms : List IpStruct) (s : IpStruct)
    → n.ip_list ≡ s ∷ []
    → Nodup (m.ip_list ++ (us ++ s ∷ vs))
    → OneAddress (m.ip_list ++ (us ++ s ∷ vs))
    → ((v : IpStruct) → Memᴰ v vs → Memᴰ v ms)
    → ((v : IpStruct) → Memᴰ v ms → Memᴰ v (m.ip_list ++ (us ++ s ∷ vs)))
    → (ips : List IpStruct) × (participate_in_network n.ip_list
          (some (join_network (joins m us) s).0)
        ≡ some ips)
      × Perm (hear (record n { ip_list = ips }) ms).ip_list (joins m (us ++ s ∷ vs)).ip_list
unfolding participate_in_network join_network
hear-joins m n us vs ms s own once one later inside =
    (s ∷ (joins m us).ip_list, rw own refl, subst (Perm _) (sym (joins-list m (us ++ s ∷ vs))) same)
  where
    all_servers : List IpStruct
    all_servers = m.ip_list ++ (us ++ s ∷ vs)

    joined : Network
    joined = record n { ip_list = s ∷ (joins m us).ip_list }

    earlier : List IpStruct
    earlier = m.ip_list ++ us

    split : all_servers ≡ earlier ++ s ∷ vs
    split = sym (append_assoc m.ip_list us (s ∷ vs))

    reply : (joins m us).ip_list ≡ earlier
    reply = joins-list m us

    start : Kept all_servers joined
    start = record {
      within = λ v at. subst (Memᴰ v) (sym split) (elim (Memᴰ.cases_cons at) [
        | inl e ↦ Memᴰ.append_right earlier (Memᴰ.head e)
        | inr before ↦ Memᴰ.append_left (s ∷ vs) (subst (Memᴰ v) reply before)
      ]);
      once =
          subst (λ l. Nodup (s ∷ l)) (sym reply)
            (Nodup.of_append_left vs
              (Perm.nodup (perm_middle earlier vs) (subst Nodup split once)));
    }

    heard :
        Kept all_servers (hear joined ms)
        × ((u : IpStruct) → Memᴰ u joined.ip_list ⊎ Memᴰ u ms → Memᴰ u (hear joined ms).ip_list)
    heard = hear_all-Kept all_servers joined ms one inside start

    found : (v : IpStruct) → Memᴰ v all_servers → Memᴰ v (hear joined ms).ip_list
    found v at = elim (Memᴰ.append_cases earlier (subst (Memᴰ v) split at)) [
      | inl before ↦ heard.1 v (inl (Memᴰ.tail (subst (Memᴰ v) (sym reply) before)))
      | inr after ↦ elim (Memᴰ.cases_cons after) [
        | inl e ↦ heard.1 v (inl (Memᴰ.head e))
        | inr late ↦ heard.1 v (inr (later v late))
      ]
    ]

    same : Perm (hear joined ms).ip_list all_servers
    same =
        (perm_ext_iff_of_Nodup heard.0.once once).1
          (λ v. ((λ x. ∥∥₁_map x (heard.0.within v)), (λ x. ∥∥₁_map x (found v))))
