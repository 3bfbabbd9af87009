-- ===== src/Session/Runs.antt =====
-- A daemon with one paste and a client over the toy cryptography (daemon.go, fetch.go).
use tp.Prelude.{
  ℕ, ◌+◌, ◌*◌, ◌/◌, ◌≤◌, ◌≡◌, refl, ap, ◌∙◌, List, [], ◌∷◌, ◌++◌, true, false, none, some, arith,
  length,
}
use tp.Prelude.Text.{Text, codes, text_eq}
use tp.Prelude.Maps.{lookup, insert}
use tp.Hex.{hex_encode}
use tp.Random.{shuffle, shuffle_loop, swap, rand_index}
use tp.Errors.{Result, ok, err, protocol_error}
use tp.Store.{
  Store, new_store, candidates, live_secrets, padded_count, padded_loop, pad_to, take, after_take,
  burn, paste_key, add, second,
}
use tp.Store.History.{run, step, posts, new_paste}
use tp.Limiter
use tp.Limiter.{Limiter, new_limiter, allow_peer, allow_exchange, admit, fail}
use tp.Wire.{wire_version}
use tp.Pake.Side.{
  PakeSide, new_pake_side, finish, channel_id, generator_string, calculate_generator,
  scalar_mult_vfy, session_key, confirm, server_tag, client_tag, seal_payload,
}
use tp.Pake.Encoding.{lv_cat, prepend_len, leb128, o_cat, lex_greater}
use tp.Pake.Toy.{toy}
use tp.Offer.{build_offer, build_sides, entries, entry_key, match_confirmation, scan_tags}
use tp.Offer.Matching.{Silent, Unheard}
use tp.Client.{exchange}
use tp.Session.{Host, Link, alpn_proto, handshake, found_side}
use tp.Session.Delivery.{frame, IsOpen, admitted, handshake-delivers}
use tp.Session.Refusals.{handshake_unmatched, handshake_not_taken}

abbrev host_id : Text
host_id = codes "h"

abbrev address : Text
address = codes "a"

abbrev link : Link
link = record {
  remote = some address;
  tls_ok = true;
  negotiated = alpn_proto;
  exported = some (6 ∷ []);
  write_ok = true;
  peer_time = 100;
  exchange_time = 101;
  offer_time = 102;
  fail_time = 103;
  take_time = 104;
  touch_time = 5 * second;
  pick = λ i. i;
}

abbrev link-IsOpen : IsOpen toy link address (6 ∷ [])
link-IsOpen = record {
  remote = refl;
  tls_ok = refl;
  negotiated = refl;
  exported = refl;
  write_ok = refl;
}

abbrev stock : Store
stock = run (new_store (9 ∷ [])) (posts [] 1_000 1 (2 ∷ []) (7 ∷ 8 ∷ []) ∷ [])

abbrev spent : Store
spent = (take stock (2 ∷ []) 104).0

abbrev draw : ℕ → ℕ
draw i = 3 + i

abbrev decoys : List (List ℕ)
decoys = (9 ∷ []) ∷ (9 ∷ []) ∷ (9 ∷ []) ∷ []

abbrev client : PakeSide toy
client = new_pake_side toy (2 ∷ []) (channel_id host_id) (6 ∷ []) 5

abbrev built : Result (List (PakeSide toy) × List ℕ)
built = build_offer toy ((2 ∷ []) ∷ decoys) (channel_id host_id) (6 ∷ []) client.share draw

abbrev sides_of : Result (List (PakeSide toy) × List ℕ) → List (PakeSide toy)
sides_of (ok (sides, offer)) = sides
sides_of (err e) = []

abbrev offer_of : Result (List (PakeSide toy) × List ℕ) → List ℕ
offer_of (ok (sides, offer)) = offer
offer_of (err e) = []

abbrev rest_of : List (PakeSide toy) → List (PakeSide toy)
rest_of [] = []
rest_of (p ∷ ps) = ps

abbrev first_of : List (PakeSide toy) → PakeSide toy
first_of [] = client
first_of (p ∷ ps) = p

abbrev own_side : PakeSide toy
own_side = first_of (sides_of built)

is_built : built ≡ ok ([] ++ (own_side ∷ rest_of (sides_of built)), offer_of built)
unfolding build_offer build_sides entries finish new_pake_side calculate_generator generator_string
    channel_id scalar_mult_vfy session_key lv_cat prepend_len leb128 o_cat lex_greater server_tag
    confirm
is_built = refl

abbrev host : List ℕ → Host
host incoming = record {
  store = stock;
  limiter = new_limiter;
  last_used = 0;
  incoming = incoming;
  outgoing = [];
}

offered : candidates stock 102 (λ i. i) ≡ (2 ∷ []) ∷ decoys
unfolding candidates live_secrets padded_count padded_loop pad_to shuffle shuffle_loop swap
    rand_index run step new_paste add new_store paste_key hex_encode lookup insert text_eq
offered = refl

fetched : take stock (2 ∷ []) 104 ≡ (spent, some (7 ∷ 8 ∷ []))
unfolding take after_take burn run step new_paste add new_store paste_key hex_encode lookup insert
    text_eq
fetched = refl

peer_allowed : (allow_peer new_limiter address 100).1 ≡ true
unfolding allow_peer admit Limiter.take Limiter.spend lookup insert
peer_allowed = refl

exchange_allowed : (allow_exchange (allow_peer new_limiter address 100).0 101).1 ≡ true
unfolding allow_exchange allow_peer admit Limiter.take Limiter.spend lookup insert
exchange_allowed = refl

abbrev hello : List ℕ
hello = frame (wire_version ∷ client.share)

abbrev sent : List ℕ
sent = hello ++ (frame (client_tag toy own_side) ++ [])

abbrev last_side : PakeSide toy
last_side = first_of (rest_of (rest_of (rest_of (sides_of built))))

abbrev decoy_tag : List ℕ
decoy_tag = client_tag toy last_side

silent : Silent toy client (6 ∷ []) (rest_of (sides_of built))
unfolding build_offer build_sides entries entry_key match_confirmation scan_tags client_tag finish
    new_pake_side calculate_generator generator_string channel_id scalar_mult_vfy session_key lv_cat
    prepend_len leb128 o_cat lex_greater server_tag confirm text_eq
silent = (refl, (refl, (refl, tt)))

unheard : Unheard toy (client_tag toy own_side) (rest_of (sides_of built))
unfolding build_offer build_sides entries entry_key match_confirmation scan_tags client_tag finish
    new_pake_side calculate_generator generator_string channel_id scalar_mult_vfy session_key lv_cat
    prepend_len leb128 o_cat lex_greater server_tag confirm text_eq
unheard = (refl, (refl, (refl, tt)))

shared_length : length client.share ≡ 32
unfolding new_pake_side
shared_length = refl

all_built : built ≡ ok (sides_of built, offer_of built)
unfolding build_offer build_sides entries entry_key match_confirmation scan_tags client_tag finish
    new_pake_side calculate_generator generator_string channel_id scalar_mult_vfy session_key lv_cat
    prepend_len leb128 o_cat lex_greater server_tag confirm text_eq
all_built = refl

built_from_stock :
    build_offer toy (candidates stock 102 (λ i. i)) (channel_id host_id) (6 ∷ []) client.share draw
    ≡ ok (sides_of built, offer_of built)
built_from_stock =
    ap (λ cs. build_offer toy cs (channel_id host_id) (6 ∷ []) client.share draw) offered
    ∙ all_built

no_match_found : match_confirmation toy (sides_of built) (0 ∷ []) ≡ none
unfolding build_offer build_sides entries entry_key match_confirmation scan_tags client_tag finish
    new_pake_side calculate_generator generator_string channel_id scalar_mult_vfy session_key lv_cat
    prepend_len leb128 o_cat lex_greater server_tag confirm text_eq
no_match_found = refl

decoy_found :
    found_side toy
      (sides_of built)
      (candidates stock 102 (λ i. i))
      (match_confirmation toy (sides_of built) decoy_tag)
    ≡ some (last_side, 9 ∷ [])
unfolding build_offer build_sides entries entry_key match_confirmation scan_tags client_tag finish
    new_pake_side calculate_generator generator_string channel_id scalar_mult_vfy session_key lv_cat
    prepend_len leb128 o_cat lex_greater server_tag confirm text_eq candidates live_secrets
    padded_count padded_loop pad_to shuffle shuffle_loop swap rand_index run step new_paste add
    new_store paste_key hex_encode lookup insert
decoy_found = refl

decoy_length : length decoy_tag ≤ 32
unfolding build_offer build_sides entries entry_key match_confirmation scan_tags client_tag finish
    new_pake_side calculate_generator generator_string channel_id scalar_mult_vfy session_key lv_cat
    prepend_len leb128 o_cat lex_greater server_tag confirm text_eq
decoy_length = omega arith

decoy_refused : take stock (9 ∷ []) 104 ≡ (stock, none)
unfolding take run step new_paste add new_store paste_key hex_encode lookup insert text_eq
decoy_refused = refl

handshake-delivers_example :
    (handshake toy host_id link draw (host sent) ≡ (
      ok tt,
      record (admitted toy (host sent) address link []) {
        store = spent;
        last_used = 5 * second / second;
        outgoing = frame (offer_of built) ++ frame (seal_payload toy own_side (7 ∷ 8 ∷ []));
      },
    ))
    × (exchange toy
          (2 ∷ [])
          host_id
          (some (6 ∷ []))
          true
          5
          (frame (offer_of built) ++ (frame (seal_payload toy own_side (7 ∷ 8 ∷ [])) ++ []))
        ≡ ok (7 ∷ 8 ∷ [], hello ++ frame (client_tag toy own_side)))
handshake-delivers_example =
    handshake-delivers toy host_id link address draw 5 (6 ∷ []) (2 ∷ []) [] decoys []
      (rest_of (sides_of built)) own_side (offer_of built) (7 ∷ 8 ∷ []) [] [] spent (host sent)
      link-IsOpen peer_allowed exchange_allowed offered is_built refl silent unheard fetched
      (omega arith) refl

-- A confirmation of zeros.
abbrev bad_tag : List ℕ
bad_tag = 0 ∷ []

handshake_unmatched_example :
    handshake toy host_id link draw (host (hello ++ (frame bad_tag ++ []))) ≡ (
      err protocol_error,
      record (host []) {
        limiter = fail (allow_exchange (allow_peer new_limiter address 100).0 101).0 address 103;
        outgoing = frame (offer_of built);
      },
    )
handshake_unmatched_example =
    handshake_unmatched toy host_id link address draw (6 ∷ []) client.share bad_tag []
      (sides_of built) (offer_of built) (host (hello ++ (frame bad_tag ++ []))) link-IsOpen
      peer_allowed exchange_allowed shared_length (omega arith) built_from_stock no_match_found refl

-- The client confirms the decoy.
handshake_not_taken_example :
    handshake toy host_id link draw (host (hello ++ (frame decoy_tag ++ []))) ≡ (
      err protocol_error,
      record (host []) {
        store = stock;
        limiter = (allow_exchange (allow_peer new_limiter address 100).0 101).0;
        outgoing = frame (offer_of built);
      },
    )
handshake_not_taken_example =
    handshake_not_taken toy host_id link address draw (6 ∷ []) client.share decoy_tag [] (9 ∷ [])
      (sides_of built) last_side (offer_of built) stock (host (hello ++ (frame decoy_tag ++ [])))
      link-IsOpen peer_allowed exchange_allowed shared_length decoy_length built_from_stock
      decoy_found decoy_refused refl

abbrev full : Limiter
full = record {
  ip =
      (
        address,
        record { bucket = Limiter.zero_bucket; last_seen = 0; failures = []; blocked = 1_000 },
      )
      ∷ [];
  global = Limiter.zero_bucket;
}

blocked_peer : (allow_peer full address 100).1 ≡ false
unfolding allow_peer admit lookup text_eq
blocked_peer = refl
