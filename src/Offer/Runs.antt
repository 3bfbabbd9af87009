-- ===== src/Offer/Runs.antt =====
-- An offer of two candidates, as buildOffer of daemon.go makes it, over the toy cryptography.
use tp.Prelude.{ℕ, ◌+◌, ◌≡◌, refl, List, [], ◌∷◌, none}
use tp.Errors.{Result, ok, err}
use tp.Pake.Side.{
  PakeSide, new_pake_side, finish, generator_string, calculate_generator, scalar_mult_vfy,
  session_key, confirm, server_tag,
}
use tp.Pake.Encoding.{lv_cat, prepend_len, leb128, o_cat, lex_greater}
use tp.Pake.Toy.{toy}
use tp.Offer.{build_offer, build_sides, entries, match_offer, matched}
use tp.Offer.Layout.{match_offer-build_offer, last_key}

abbrev draw : ℕ → ℕ
draw i = 3 + i

abbrev two_candidates : List (List ℕ)
two_candidates = (1 ∷ []) ∷ (2 ∷ []) ∷ []

abbrev built : Result (List (PakeSide toy) × List ℕ)
built = build_offer toy two_candidates [] [] (new_pake_side toy (2 ∷ []) [] [] 5).share draw

abbrev sides_of : Result (List (PakeSide toy) × List ℕ) → List (PakeSide toy)
sides_of (ok (sides, offer)) = sides
sides_of (err e) = []

abbrev offer_of : Result (List (PakeSide toy) × List ℕ) → List ℕ
offer_of (ok (sides, offer)) = offer
offer_of (err e) = []

is_built : built ≡ ok (sides_of built, offer_of built)
unfolding build_offer build_sides entries finish new_pake_side calculate_generator generator_string
    scalar_mult_vfy session_key lv_cat prepend_len leb128 o_cat lex_greater server_tag confirm
is_built = refl

match_offer-build_offer_example :
    match_offer toy (new_pake_side toy (2 ∷ []) [] [] 5) [] (offer_of built)
    ≡ matched toy
        (new_pake_side toy (2 ∷ []) [] [] 5)
        (last_key toy (new_pake_side toy (2 ∷ []) [] [] 5) [] (sides_of built) none)
match_offer-build_offer_example =
    match_offer-build_offer toy two_candidates [] [] (new_pake_side toy (2 ∷ []) [] [] 5).share draw
      (new_pake_side toy (2 ∷ []) [] [] 5) (sides_of built) (offer_of built) is_built
