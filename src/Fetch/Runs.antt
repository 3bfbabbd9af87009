-- ===== src/Fetch/Runs.antt =====
-- Runs of `fetch` over two candidates, and one attempt over the toy cryptography (fetch.go).
use tp.Prelude.{
  ℕ, ◌+◌, ◌*◌, ◌≤◌, ◌≡◌, refl, ◌≢◌, ◌⊎◌, List, [], ◌∷◌, ◌++◌, true, false, none, some, arith,
  length,
}
use tp.Prelude.Text.{Text, codes, text_eq}
use tp.Errors.{Result, ok, err}
use tp.Wire.{write_frame, read_frame}
use tp.Code.{Unicode, is_space}
use tp.Pake.Side.{
  PakeSide, new_pake_side, finish, channel_id, generator_string, calculate_generator,
  scalar_mult_vfy, session_key, confirm, server_tag, client_tag, seal_payload, open_payload,
}
use tp.Pake.Encoding.{lv_cat, prepend_len, leb128, o_cat, lex_greater}
use tp.Pake.Toy.{toy}
use tp.Offer.{build_offer, build_sides, entries, match_offer, scan_offer, entry_key}
use tp.Client.{exchange}
use tp.Session.{alpn_proto}
use tp.Session.Delivery.{frame}
use tp.Identity.{host_id, encode_crockford, bits, digits}
use tp.Fetch.{
  Candidate, fetched, failed, Pool, new_pool, Step, starts, finishes, Run, begins, goes, fan_out,
  sort_ranked, insert_ranked,
}
use tp.Fetch.Answers.{IsPool, Run-IsPool}
use tp.Fetch.Ending.{fetch_ends}
use tp.Fetch.Asking.{Hashes, Dial, fetch_from, check_pin}
use tp.Fetch.Settling.{FitsLine, IsSettled, fetch_from-IsSettled}

abbrev hashes : Hashes
hashes = record { sha256 = λ k. k ++ k; spki_hash = λ k. k }

abbrev key : List ℕ
key = 65 ∷ 66 ∷ 67 ∷ 68 ∷ []

abbrev server : Text
server = codes "85146H258"

abbrev ascii : Unicode
ascii = record { lower_rune = λ r. r; is_space_rune = λ r. false }

abbrev known : Candidate
known = record {
  host_id = host_id hashes.sha256 key;
  hostname = codes "box";
  addr = codes "a";
  pin = some (record { spki = key; hostname = codes "box" });
}

abbrev unknown : Candidate
unknown = record { host_id = codes "h2"; hostname = codes "b"; addr = codes "b"; pin = none }

abbrev cands : List Candidate
cands = unknown ∷ known ∷ []

-- The pinned candidate is started, fails, and its result is received.
abbrev one_started : Pool
one_started = record (new_pool cands) { waiting = unknown ∷ []; active = known ∷ [] }

abbrev one_done : Pool
one_done = record one_started { active = []; results = (known, failed) ∷ [] }

begun : Run cands 1 one_started
unfolding new_pool sort_ranked insert_ranked
begun = goes begins (starts [] (unknown ∷ []) known refl (unfold fan_out in omega arith))

finished : Run cands 2 one_done
unfolding new_pool
finished = goes begun (finishes [] [] known failed refl)

Run-IsPool_example : IsPool cands (fan_out 2) one_done
Run-IsPool_example = Run-IsPool cands 2 one_done finished

fetch_ends_example :
    (2 ≤ 3 * length cands + 2)
    × ((one_done.answer ≢ none) ⊎ ((t : Pool) × Step (fan_out (length cands)) one_done t))
fetch_ends_example = fetch_ends cands 2 one_done finished

abbrev prs : List ℕ
prs = 2 ∷ []

abbrev sid : List ℕ
sid = 6 ∷ []

abbrev client : PakeSide toy
client = new_pake_side toy prs (channel_id (host_id hashes.sha256 key)) sid 5

abbrev built : Result (List (PakeSide toy) × List ℕ)
built =
    build_offer toy (prs ∷ []) (channel_id (host_id hashes.sha256 key)) sid client.share
      (λ i. 3 + i)

abbrev reply_of : Result (List (PakeSide toy) × List ℕ) → List ℕ
reply_of (err e) = []
reply_of (ok ([], offer)) = []
reply_of (ok (p ∷ ps, offer)) = frame offer ++ frame (seal_payload toy p (7 ∷ 8 ∷ []))

abbrev dial : Dial
dial = record {
  dialed = true;
  spki = some key;
  tls_ok = true;
  deadline_ok = true;
  negotiated = alpn_proto;
  exported = some sid;
  works = true;
  incoming = reply_of built;
  loopback = true;
  writable = true;
}

key-IsPinLine : FitsLine ascii hashes known dial.spki
unfolding is_space host_id encode_crockford bits digits
key-IsPinLine = ground arith

fetch_from-IsSettled_example :
    IsSettled toy ascii hashes prs 5 known dial none
      (fetch_from toy ascii hashes prs 5 known dial none)
fetch_from-IsSettled_example =
    fetch_from-IsSettled toy ascii hashes prs 5 known dial none key-IsPinLine tt

got_it : fetch_from toy ascii hashes prs 5 known dial none ≡ (fetched (7 ∷ 8 ∷ []), none)
unfolding fetch_from check_pin exchange build_offer build_sides entries match_offer scan_offer
    entry_key finish new_pake_side calculate_generator generator_string channel_id scalar_mult_vfy
    session_key lv_cat prepend_len leb128 o_cat lex_greater server_tag client_tag confirm
    seal_payload open_payload host_id encode_crockford bits digits text_eq write_frame read_frame
got_it = refl
