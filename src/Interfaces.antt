-- ===== src/Interfaces.antt =====
-- interfaces.go: the interfaces that mDNS and the data plane may use. What package net reports of an
-- interface is its data; `refresh` compares the sets of addresses, which Go keeps as maps.
use tp.Prelude.{
  ℕ, ◌+◌, ◌≡◌, List, [], ◌∷◌, ◌++◌, Bool, true, false, not, ◌&&◌, ◌||◌, Option, none, some, ◌==◌,
  if◌then◌else◌, length,
}
use tp.Prelude.Text.{Text, codes, text_eq, has_prefix}
use tp.Prelude.Maps.{lookup, insert, has_key}
pub mod Filter
mod Runs

abbrev pub excluded_iface_prefixes : List Text
excluded_iface_prefixes =
    codes "docker"
    ∷ codes "br-"
    ∷ codes "veth"
    ∷ codes "vboxnet"
    ∷ codes "tun"
    ∷ codes "utun"
    ∷ codes "wg"
    ∷ codes "awdl"
    ∷ codes "llw"
    ∷ []

-- An address of an interface: its text if it is an IPv4 network, and whether it is link local.
pub record Addr : Type 0 where
  pub v4 : Option Text
  pub link_local : Bool

-- `addrs` is none where Addrs fails.
pub record Iface : Type 0 where
  pub name : Text
  pub up : Bool
  pub multicast : Bool
  pub loopback : Bool
  pub addrs : Option (List Addr)

abbrev pub pick_addr : Option Text → Bool → Option Text → Option Text
pick_addr none link_local later = later
pick_addr (some ip) true later = later
pick_addr (some ip) false later = some ip

unfoldable pub first_ip4 : List Addr → Option Text
first_ip4 [] = none
first_ip4 (a ∷ rest) = pick_addr a.v4 a.link_local (first_ip4 rest)

abbrev pub ip4_of : Option (List Addr) → Option Text
ip4_of none = none
ip4_of (some addrs) = first_ip4 addrs

abbrev pub ip4 : Iface → Option Text
ip4 ifi = ip4_of ifi.addrs

unfoldable pub has_any_prefix : Text → List Text → Bool
has_any_prefix name [] = false
has_any_prefix name (p ∷ prefixes) = has_prefix name p || has_any_prefix name prefixes

abbrev pub excluded : Text → Bool
excluded name = has_any_prefix name excluded_iface_prefixes

abbrev pub is_none : Option Text → Bool
is_none none = true
is_none (some t) = false

abbrev pub is_usable : Iface → Bool
is_usable ifi =
    (ifi.up && ifi.multicast && not ifi.loopback) && not (excluded ifi.name || is_none (ip4 ifi))

-- The loop of `usableInterfaces`; an empty result is its errNoInterface.
unfoldable pub usable : List Iface → List Iface
usable [] = []
usable (ifi ∷ all) = let rest = usable all in if is_usable ifi then ifi ∷ rest else rest

abbrev pub usable_interfaces : Option (List Iface) → List Iface
usable_interfaces none = []
usable_interfaces (some all) = usable all

-- A set of addresses as a map to `true`.
abbrev pub Addrs : Type 0
Addrs = List (Text × Bool)

abbrev with_addr : Option Text → Addrs → Addrs
with_addr none set = set
with_addr (some ip) set = insert ip true set

unfoldable pub collect_addrs : List Iface → Addrs → Addrs
collect_addrs [] set = set
collect_addrs (ifi ∷ ifaces) set = collect_addrs ifaces (with_addr (ip4 ifi) set)

unfoldable pub covers : Addrs → Addrs → Bool
covers [] b = true
covers ((k, v) ∷ a) b = has_key k b && covers a b

unfoldable pub same_addrs : Addrs → Addrs → Bool
unfolding covers
same_addrs a b = if not (length a == length b) then false else covers a b

pub record NetFilter : Type 0 where
  pub ifaces : List Iface
  pub addrs : Addrs

unfoldable pub refresh : NetFilter → Option (List Iface) → NetFilter × Bool
unfolding usable collect_addrs same_addrs
refresh f all =
    let ifaces = usable_interfaces all in
    let addrs = collect_addrs ifaces [] in
    if same_addrs f.addrs addrs
    then (f, false)
    else (record { ifaces = ifaces; addrs = addrs }, true)

unfoldable pub is_own_addr : NetFilter → Text → Bool
is_own_addr f ip = has_key ip f.addrs

abbrev serves_host : NetFilter → (Text → Bool) → Option Text → Bool
serves_host f is_loopback none = false
serves_host f is_loopback (some host) = is_loopback host || is_own_addr f host

-- `local` is what SplitHostPort gives; `is_loopback` parses an IP and tests it.
unfoldable pub serves : NetFilter → (Text → Bool) → Option Text → Bool
unfolding is_own_addr
serves f is_loopback local = serves_host f is_loopback local

abbrev named : Text → Option Text → Text
named name none = name
named name (some ip) = name ++ codes " " ++ ip

unfoldable pub iface_names : List Iface → List Text
iface_names [] = []
iface_names (i ∷ is) = named i.name (ip4 i) ∷ iface_names is
