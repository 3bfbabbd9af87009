-- ===== src/Interfaces/Filter.antt =====
-- What the filter of interfaces.go lets in.
use tp.Prelude.{
  ◌≡◌, refl, List, [], ◌∷◌, Bool, true, false, not, ◌&&◌, ◌||◌, Option, none, some, arith,
  Bool-cases, inl, inr, ◌⊎◌, ◌↔◌, All, ap, ◌∙◌,
}
use tp.Prelude.Text.{Text, text_eq, text_eq_iff, has_prefix}
use tp.Prelude.Maps.{lookup, has_key, lookup-insert}
use tp.Interfaces.{
  excluded, is_none, pick_addr, ip4_of, Addr, first_ip4, has_any_prefix, excluded_iface_prefixes,
  Iface, ip4, is_usable, usable, usable_interfaces, Addrs, with_addr, collect_addrs, same_addrs,
  NetFilter, refresh, is_own_addr, serves,
}

abbrev pub has_addr : Text → Option Text → Bool
has_addr ip none = false
has_addr ip (some a) = text_eq a ip

-- Some interface that is usable has the address.
unfoldable pub on_usable : Text → List Iface → Bool
on_usable ip [] = false
on_usable ip (ifi ∷ all) = (is_usable ifi && has_addr ip (ip4 ifi)) || on_usable ip all

abbrev pub reported : Option (List Iface) → List Iface
reported none = []
reported (some all) = all

with_addr-key :
    (ip : Text) (o : Option Text) (set : Addrs)
    → has_key ip (with_addr o set) ≡ has_addr ip o || has_key ip set
with_addr-key ip none set = refl
with_addr-key ip (some a) set = ground (arith, lookup-insert a ip true set)

collect_usable :
    (ip : Text) (all : List Iface) (set : Addrs)
    → has_key ip (collect_addrs (usable all) set) ≡ on_usable ip all || has_key ip set
unfolding collect_addrs usable on_usable
collect_usable ip [] set = refl
collect_usable ip (ifi ∷ all) set = elim (Bool-cases (is_usable ifi)) [
  | inl good ↦ rw good (
      collect_usable ip all (with_addr (ip4 ifi) set)
      ∙ ap (λ b. on_usable ip all || b) (with_addr-key ip (ip4 ifi) set)
      ∙ swap_or (on_usable ip all) (has_addr ip (ip4 ifi)) (has_key ip set))
  | inr bad ↦ rw bad (collect_usable ip all set)
]
  where
    swap_or : (a b c : Bool) → a || (b || c) ≡ (b || a) || c
    swap_or false false c = refl
    swap_or false true c = refl
    swap_or true false c = refl
    swap_or true true c = refl

-- An address that is not the one: no IPv4 network, or link local.
abbrev pub Skipped : Addr → Type 0
Skipped a = (a.v4 ≡ none) ⊎ (a.link_local ≡ true)

-- The text is the first address that is not skipped.
abbrev pub IsFirst : Text → List Addr → Type 0
IsFirst ip [] = ⊥
IsFirst ip (a ∷ rest) = (a.v4 ≡ some ip) × (a.link_local ≡ false) ⊎ Skipped a × IsFirst ip rest

abbrev pub HasFirst : Text → Option (List Addr) → Type 0
HasFirst ip none = ⊥
HasFirst ip (some addrs) = IsFirst ip addrs

-- The interface is one of the LAN, and the text is its address.
abbrev pub Carries : Text → Iface → Type 0
Carries ip ifi =
    (ifi.up ≡ true)
    × (ifi.multicast ≡ true)
    × (ifi.loopback ≡ false)
    × All (λ p. has_prefix ifi.name p ≡ false) excluded_iface_prefixes
    × HasFirst ip ifi.addrs

abbrev pub Carried : Text → List Iface → Type 0
Carried ip [] = ⊥
Carried ip (ifi ∷ all) = Carries ip ifi ⊎ Carried ip all

some-same : {t u : Text} → some t ≡ some u → t ≡ u
some-same e = cc

picked_iff :
    (ip : Text) (v4 : Option Text) (link_local : Bool) (later : Option Text) {P : Type 0}
    → (has_addr ip later ≡ true) ↔ P
    → (has_addr ip (pick_addr v4 link_local later) ≡ true)
      ↔ ((v4 ≡ some ip) × (link_local ≡ false) ⊎ ((v4 ≡ none) ⊎ (link_local ≡ true)) × P)
picked_iff ip none l later h =
    (λ e. inr (inl refl, h.0 e), λ s. elim s [ inl (a, b) ↦ absurd (cc) | inr (a, b) ↦ h.1 b ])
picked_iff ip (some t) true later h =
    (λ e. inr (inr refl, h.0 e), λ s. elim s [ inl (a, b) ↦ absurd (cc) | inr (a, b) ↦ h.1 b ])
picked_iff ip (some t) false later h = (
  λ e. inl (ap some ((text_eq_iff t ip).0 e), refl),
  λ s. elim s [
    | inl (a, b) ↦ (text_eq_iff t ip).1 (some-same a)
    | inr (inl a, b) ↦ absurd (cc)
    | inr (inr a, b) ↦ absurd (cc)
  ],
)

IsFirst-iff :
    (ip : Text) (addrs : List Addr) → (has_addr ip (first_ip4 addrs) ≡ true) ↔ IsFirst ip addrs
unfolding first_ip4
IsFirst-iff ip [] = (λ e. cc, λ h. absurd h)
IsFirst-iff ip (a ∷ rest) = picked_iff ip a.v4 a.link_local (first_ip4 rest) (IsFirst-iff ip rest)

prefix_iff :
    (name : Text) (ps : List Text)
    → (has_any_prefix name ps ≡ false) ↔ All (λ p. has_prefix name p ≡ false) ps
unfolding has_any_prefix
prefix_iff name [] = (λ e. tt, λ h. refl)
prefix_iff name (p ∷ ps) = ground (arith, prefix_iff name ps)

HasFirst-iff :
    (ip : Text) (o : Option (List Addr)) → (has_addr ip (ip4_of o) ≡ true) ↔ HasFirst ip o
HasFirst-iff ip none = (λ e. cc, λ h. absurd h)
HasFirst-iff ip (some addrs) = IsFirst-iff ip addrs

usable_iff :
    (u m l x : Bool) (ip : Text) (o : Option Text) {P Q : Type 0}
    → (x ≡ false) ↔ P
    → (has_addr ip o ≡ true) ↔ Q
    → ((((u && m && not l) && not (x || is_none o)) && has_addr ip o) ≡ true)
      ↔ ((u ≡ true) × (m ≡ true) × (l ≡ false) × P × Q)
usable_iff u m l x ip none p q = ground (arith, p, q)
usable_iff u m l x ip (some t) p q = ground (arith, p, q)

Carries-iff :
    (ip : Text) (ifi : Iface) → ((is_usable ifi && has_addr ip (ip4 ifi)) ≡ true) ↔ Carries ip ifi
Carries-iff ip ifi =
    usable_iff ifi.up ifi.multicast ifi.loopback (excluded ifi.name) ip (ip4 ifi)
      (prefix_iff ifi.name excluded_iface_prefixes) (HasFirst-iff ip ifi.addrs)

or_iff : {a b : Bool} {P Q : Type 0} → (a ≡ true) ↔ P → (b ≡ true) ↔ Q → ((a || b) ≡ true) ↔ (P ⊎ Q)
or_iff {a = true} p q = (λ e. inl (p.0 refl), λ h. refl)
or_iff {a = false} {b = true} p q = (λ e. inr (q.0 refl), λ h. refl)
or_iff {a = false} {b = false} p q =
    (λ e. absurd (cc), λ h. elim h [ inl x ↦ p.1 x | inr y ↦ q.1 y ])

on_usable_iff : (ip : Text) (all : List Iface) → (on_usable ip all ≡ true) ↔ Carried ip all
unfolding on_usable
on_usable_iff ip [] = (λ e. cc, λ h. absurd h)
on_usable_iff ip (ifi ∷ all) = or_iff (Carries-iff ip ifi) (on_usable_iff ip all)

refreshed :
    (f : NetFilter) (all : Option (List Iface)) (is_loopback : Text → Bool) (host : Text)
    → (refresh f all).1 ≡ true
    → is_loopback host ≡ false
    → serves (refresh f all).0 is_loopback (some host) ≡ on_usable host (reported all)
unfolding refresh serves is_own_addr
refreshed f none is_loopback host e out =
    elim (Bool-cases (same_addrs f.addrs (collect_addrs (usable_interfaces none) []))) [
      | inl same ↦ absurd (kept same)
      | inr new ↦ rw (new, out) (unfold collect_addrs on_usable lookup in refl)
    ]
  where
    kept : same_addrs f.addrs (collect_addrs (usable_interfaces none) []) ≡ true → ⊥
    kept same = ground arith
refreshed f (some all) is_loopback host e out =
    elim (Bool-cases (same_addrs f.addrs (collect_addrs (usable all) []))) [
      | inl same ↦ absurd (kept same)
      | inr new ↦ rw (new, out) (collect_usable host all [] ∙ nothing_there (on_usable host all))
    ]
  where
    nothing_there : (b : Bool) → b || has_key {V = Bool} host [] ≡ b
    nothing_there true = refl
    nothing_there false = unfold lookup in refl

    kept : same_addrs f.addrs (collect_addrs (usable all) []) ≡ true → ⊥
    kept same = ground arith

-- When `refresh` reports a change, the filter serves a connection to a local address that is not a
-- loopback address exactly when some interface the system reports is up, multicast and not loopback,
-- has a name that begins with none of the excluded prefixes, and has that address as its first
-- address that is IPv4 and not link local.
pub refresh-serves :
    (f : NetFilter) (all : Option (List Iface)) (is_loopback : Text → Bool) (host : Text)
    → (refresh f all).1 ≡ true
    → is_loopback host ≡ false
    → (serves (refresh f all).0 is_loopback (some host) ≡ true) ↔ Carried host (reported all)
refresh-serves f all is_loopback host e out =
    rw (refreshed f all is_loopback host e out) (on_usable_iff host (reported all))
