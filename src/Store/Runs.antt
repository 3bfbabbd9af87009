-- ===== src/Store/Runs.antt =====
-- The store of store.go on two pastes of two bytes each, one of them with a single fetch.
use tp.Prelude.{
  ℕ, ◌+◌, ◌-◌, ◌≤◌, ◌<◌, ◌≡◌, refl, ◌≢◌, ◌↔◌, inl, inr, List, [], ◌∷◌, ◌++◌, none, some, arith,
  length, replicate, if◌then◌else◌,
}
use tp.Prelude.Text.{text_eq}
use tp.Prelude.Maps.{lookup, values, insert}
use tp.Hex.{hex_encode}
use tp.Random.Counts.{IsFair}
use tp.Store.{
  Store, Paste, add, take, after_take, burn, paste_key, new_store, candidates, padded_count,
  live_secrets, pad_to, padded_loop,
}
use tp.Store.History.{Op, posts, takes, dels, sweeps, new_paste, step, run, served}
use tp.Store.Invariant.{IsValid, run-new_store-IsValid}
use tp.Store.Abstract.{Allowed, view, log}
use tp.Store.Refining.{log-Allowed}
use tp.Store.Offers.{occurs, candidates_lem}
use tp.Store.Offered.{offered_iff-take}
use tp.Store.Padding.{IsBucket}
use tp.Store.Serving.{fetches, fetches_lem, served-le-left, turns, left}

abbrev decoy : List ℕ
decoy = 9 ∷ 9 ∷ []

abbrev secret : List ℕ
secret = 1 ∷ 2 ∷ []

abbrev other_secret : List ℕ
other_secret = 3 ∷ 4 ∷ []

abbrev posted : List Op
posted = posts [] 100 1 secret (7 ∷ 8 ∷ []) ∷ posts [] 50 0 other_secret (5 ∷ []) ∷ []

abbrev stock : Store
stock = run (new_store decoy) posted

abbrev once : Paste
once = new_paste [] 100 1 secret (7 ∷ 8 ∷ [])

abbrev no_draw : ℕ → ℕ
no_draw i = 0

stock_found : lookup (paste_key secret) stock.m ≡ some once
unfolding run step new_paste add new_store paste_key hex_encode lookup insert text_eq
stock_found = refl

second_fetch_refused : fetches stock secret (60 ∷ 70 ∷ []) ≡ some (7 ∷ 8 ∷ []) ∷ none ∷ []
unfolding fetches take after_take burn run step new_paste add new_store paste_key hex_encode lookup
    insert text_eq
second_fetch_refused = refl

offer_of_four : length (candidates stock 60 no_draw) ≡ 4
unfolding candidates live_secrets padded_count padded_loop pad_to run step new_paste add new_store
    paste_key hex_encode lookup insert text_eq
offer_of_four = refl

stock-IsValid : IsValid stock
stock-IsValid = run-new_store-IsValid decoy posted

fair : IsFair no_draw
fair i = omega arith

fetches_lem_example :
    fetches stock secret (60 ∷ 70 ∷ [])
    ≡ replicate (turns once 2) (some (once.body)) ++ replicate (2 - turns once 2) none
fetches_lem_example =
    fetches_lem stock secret (60 ∷ 70 ∷ []) once stock_found
      (unfold new_paste in inl (refl, refl, inr (omega arith))) (unfold new_paste in refl)
      (unfold new_paste in (omega arith, (omega arith, tt)))

abbrev traffic : List Op
traffic = takes secret 60 ∷ takes secret 61 ∷ sweeps 62 ∷ dels other_secret ∷ []

served-le-left_example :
    served (paste_key secret) stock traffic ≤ left (lookup (paste_key secret) stock.m)
served-le-left_example =
    served-le-left (paste_key secret) stock traffic stock-IsValid
      (unfold run step new_paste add new_store paste_key hex_encode lookup insert text_eq in
        omega arith)
      tt

candidates_lem_example :
    (occurs secret (candidates stock 60 no_draw)
      ≡ occurs secret (live_secrets 60 (values stock.m))
        + (if text_eq stock.decoy secret
            then length (candidates stock 60 no_draw) - length (live_secrets 60 (values stock.m))
            else 0))
    × (length (candidates stock 60 no_draw)
        ≡ padded_count (length (live_secrets 60 (values stock.m))))
    × (length (live_secrets 60 (values stock.m)) < length (candidates stock 60 no_draw))
    × IsBucket (length (candidates stock 60 no_draw))
candidates_lem_example = candidates_lem stock 60 no_draw secret stock-IsValid fair

differs : secret ≢ decoy
differs e = cc

not_decoy : secret ≢ stock.decoy
unfolding run step new_paste add new_store paste_key hex_encode lookup insert text_eq
not_decoy = differs

offered_iff-take_example :
    (0 < occurs secret (candidates stock 60 no_draw)) ↔ ((take stock secret 60).1 ≢ none)
offered_iff-take_example =
    offered_iff-take stock 60 no_draw secret stock-IsValid fair
      (unfold run step new_paste add new_store paste_key hex_encode lookup insert text_eq in
        ((omega arith, (omega arith, tt)), ((omega arith, (omega arith, tt)), tt)))
      (omega arith, (omega arith, tt)) not_decoy

log-Allowed_example :
    Allowed
      (view stock)
      (log stock (takes secret 60 ∷ dels secret ∷ []))
      (view (run stock (takes secret 60 ∷ dels secret ∷ [])))
log-Allowed_example = log-Allowed stock (takes secret 60 ∷ dels secret ∷ []) stock-IsValid
