-- ===== src/Platform.antt =====
-- env.go and the advice of mdns.go's `diagnostic`. The texts that are printed
-- are constructors. An address is text, and `parse` gives its four bytes (package net).
use tp.Prelude.{
  ℕ, ◌/◌, List, [], ◌∷◌, ◌++◌, map, Bool, true, false, not, ◌&&◌, ◌||◌, Option, none, some, ◌==◌,
  if◌then◌else◌,
}
use tp.Prelude.Text.{Text, codes, text_eq, has_prefix}
use tp.Code.{Unicode, lower}
use tp.Interfaces.{Iface, ip4, usable_interfaces}
use tp.Discovery.Responder.{Counters, is_quiet}
pub mod Paths
pub mod Build
mod Runs

-- `strings.Contains`.
unfoldable pub contains : Text → Text → Bool
contains [] part = has_prefix [] part
contains (c ∷ s) part = has_prefix (c ∷ s) part || contains s part

unfoldable pub looks_like_wsl : Unicode → Text → Bool
unfolding contains
looks_like_wsl u release =
    let r = map (lower u) release in contains r (codes "microsoft") || contains r (codes "wsl")

-- `isWSL`: the system, and the release file where it can be read.
unfoldable pub is_wsl : Unicode → Text → Option Text → Bool
unfolding looks_like_wsl
is_wsl u goos none = false
is_wsl u goos (some release) = text_eq goos (codes "linux") && looks_like_wsl u release

-- 172.16.0.0/12.
unfoldable pub in_wsl_nat_range : List ℕ → Bool
in_wsl_nat_range (a ∷ b ∷ rest) = (a == 172) && (b / 16 == 1)
in_wsl_nat_range (a ∷ []) = false
in_wsl_nat_range [] = false

-- The loop of `wslNAT`, with `seen` so far.
abbrev nat_of : (Text → List ℕ) → Option Text → Bool → (Bool → Bool) → Bool
nat_of parse none seen rest = rest seen
nat_of parse (some ip) seen rest = if in_wsl_nat_range (parse ip) then rest true else false

unfoldable pub wsl_nat_loop : (Text → List ℕ) → List Iface → Bool → Bool
wsl_nat_loop parse [] seen = seen
wsl_nat_loop parse (i ∷ is) seen = nat_of parse (ip4 i) seen (λ s. wsl_nat_loop parse is s)

unfoldable pub wsl_nat : (Text → List ℕ) → List Iface → Bool
unfolding wsl_nat_loop
wsl_nat parse ifaces = wsl_nat_loop parse ifaces false

pub data Advice : Type 0 where
  mirror_networking : Advice
  sign_tp : Advice
  no_advice : Advice

-- `wsl` is what `isWSL` returned, `all` what net.Interfaces did.
unfoldable pub discovery_advice : (Text → List ℕ) → Text → Bool → Option (List Iface) → Advice
unfolding wsl_nat
discovery_advice parse goos wsl all =
    if wsl && wsl_nat parse (usable_interfaces all)
    then mirror_networking
    else if text_eq goos (codes "darwin")
    then sign_tp
    else no_advice

-- What `diagnostic` says: nothing, the platform's advice, or that the network blocks multicast.
pub data Diagnostic : Type 0 where
  fine : Diagnostic
  advised : Advice → Diagnostic
  network_blocks : Diagnostic

abbrev advice_or : Advice → Diagnostic
advice_or mirror_networking = advised mirror_networking
advice_or sign_tp = advised sign_tp
advice_or no_advice = network_blocks

unfoldable pub diagnostic : ℕ → ℕ → Counters → Advice → Diagnostic
diagnostic started now n help = if is_quiet started now n then advice_or help else fine
