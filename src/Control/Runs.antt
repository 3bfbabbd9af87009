-- ===== src/Control/Runs.antt =====
-- Requests to a daemon without pastes (daemon.go).
use tp.Prelude.{◌*◌, ◌≡◌, refl, [], ◌∷◌, true, false, some, arith}
use tp.Prelude.Int.{pos}
use tp.Prelude.Text.{codes, text_eq}
use tp.Prelude.Maps.{lookup, insert, has_key}
use tp.Hex.{hex_encode}
use tp.Store.{Store, paste_key, second}
use tp.Store.History.{new_paste}
use tp.Control.{
  Daemon, should_stop, Parsers, Query, parsed, parse_post_options, created, Draw, post_loop,
}
use tp.Control.Posting.{IsAnswered, post_loop-IsAnswered, post_loop_free}

abbrev idle : Daemon
idle = record { store = record { m = []; decoy = 9 ∷ [] }; last_used = 10 }

abbrev parsers : Parsers
parsers = record { parse_duration = λ v. some (pos second); atoi = λ v. some (pos 2) }

abbrev query : Query
query = record { label = []; ttl = codes "1s"; max_gets = codes "2"; code_style = [] }

abbrev draw : Draw
draw = record { code = codes "a-b-c"; prs = some (1 ∷ 2 ∷ []) }

abbrev next_draw : Draw
next_draw = record { code = codes "d-e-f"; prs = some (3 ∷ 4 ∷ []) }

abbrev stocked : Store
stocked = record {
  m = (hex_encode (1 ∷ 2 ∷ []), new_paste [] 5 0 (1 ∷ 2 ∷ []) []) ∷ [];
  decoy = 9 ∷ [];
}

first_taken : has_key (paste_key (1 ∷ 2 ∷ [])) stocked.m ≡ true
unfolding paste_key hex_encode lookup text_eq
first_taken = refl

second_free : has_key (paste_key (3 ∷ 4 ∷ [])) stocked.m ≡ false
unfolding paste_key hex_encode lookup text_eq
second_free = refl

post_loop-IsAnswered_example :
    IsAnswered stocked [] 5 0
      (7 ∷ [])
      (draw ∷ next_draw ∷ [])
      (post_loop stocked [] 5 0 (7 ∷ []) (draw ∷ next_draw ∷ []))
post_loop-IsAnswered_example = post_loop-IsAnswered stocked [] 5 0 (7 ∷ []) (draw ∷ next_draw ∷ [])

post_loop_free_example : post_loop stocked [] 5 0 (7 ∷ []) (draw ∷ next_draw ∷ []) ≡ (
  record stocked {
    m = insert (paste_key (3 ∷ 4 ∷ [])) (new_paste [] 5 0 (3 ∷ 4 ∷ []) (7 ∷ [])) stocked.m;
  },
  created (codes "d-e-f") 5,
)
post_loop_free_example =
    post_loop_free stocked [] 5 0 (7 ∷ []) (draw ∷ []) [] next_draw (3 ∷ 4 ∷ []) (omega arith)
      ((1 ∷ 2 ∷ [], refl, first_taken), tt) refl second_free

options : parse_post_options parsers query ≡ parsed (record { ttl = second; max_gets = 2 })
unfolding parse_post_options
options = refl

abbrev holding : Daemon
holding = record { store = stocked; last_used = 10 }

stops : should_stop idle (2_000 * second) ≡ true
unfolding should_stop
stops = refl
