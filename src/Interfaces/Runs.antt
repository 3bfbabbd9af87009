-- ===== src/Interfaces/Runs.antt =====
-- A machine with a network card and a tunnel (interfaces.go).
use tp.Prelude.{◌≡◌, refl, [], ◌∷◌, Bool, true, false, some, ◌↔◌, inl, inr}
use tp.Prelude.Text.{Text, codes, has_prefix}
use tp.Prelude.Maps.{insert}
use tp.Interfaces.{
  Iface, NetFilter, refresh, serves, usable, collect_addrs, same_addrs, covers, first_ip4,
  has_any_prefix,
}
use tp.Interfaces.Filter.{Carried, refresh-serves}

abbrev card : Iface
card = record {
  name = codes "eth0";
  up = true;
  multicast = true;
  loopback = false;
  addrs = some (record { v4 = some (codes "10.0.0.1"); link_local = false } ∷ []);
}

abbrev tunnel : Iface
tunnel = record {
  name = codes "tun0";
  up = true;
  multicast = true;
  loopback = false;
  addrs = some (record { v4 = some (codes "10.9.0.1"); link_local = false } ∷ []);
}

abbrev empty_filter : NetFilter
empty_filter = record { ifaces = []; addrs = [] }

abbrev none_loopback : Text → Bool
none_loopback host = false

changed : (refresh empty_filter (some (tunnel ∷ card ∷ []))).1 ≡ true
unfolding refresh usable collect_addrs same_addrs covers first_ip4 has_any_prefix has_prefix insert
changed = refl

refresh-serves_example :
    (serves
        (refresh empty_filter (some (tunnel ∷ card ∷ []))).0
        none_loopback
        (some (codes "10.0.0.1"))
      ≡ true)
    ↔ Carried (codes "10.0.0.1") (tunnel ∷ card ∷ [])
refresh-serves_example =
    refresh-serves empty_filter (some (tunnel ∷ card ∷ [])) none_loopback (codes "10.0.0.1") changed
      refl

card_served :
    serves
      (refresh empty_filter (some (tunnel ∷ card ∷ []))).0
      none_loopback
      (some (codes "10.0.0.1"))
    ≡ true
unfolding has_prefix
card_served =
    (refresh-serves empty_filter (some (tunnel ∷ card ∷ [])) none_loopback (codes "10.0.0.1")
        changed refl).1
      (inr (
        inl (
          refl,
          refl,
          refl,
          (refl, (refl, (refl, (refl, (refl, (refl, (refl, (refl, (refl, tt))))))))),
          inl (refl, refl),
        )))
