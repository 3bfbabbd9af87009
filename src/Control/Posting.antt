-- ===== src/Control/Posting.antt =====
-- What `handlePost` of daemon.go leaves in the store.
use tp.Prelude.{
  ℕ, ◌≤◌, ◌<◌, ◌≡◌, refl, ◌⊎◌, inl, inr, List, [], ◌∷◌, ◌++◌, true, false, Option, none, some,
  arith, leb, length, Option-cases, Bool-cases, All,
}
use tp.Prelude.Text.{Text}
use tp.Prelude.Maps.{lookup, insert, has_key}
use tp.Store.{Store, add, paste_key, max_pastes, max_ttl}
use tp.Store.History.{new_paste}
use tp.Control.{
  Parsers, Query, PostOptions, parsed, parse_post_options, Posted, created, unreadable, too_large,
  bad_request, server_error, no_room, out_of_codes, Draw, attempt, add_answer, post_loop,
}

-- The code and its secret are one of the draws.
abbrev pub Drawn : Text → List ℕ → List Draw → Type 0
Drawn code prs [] = ⊥
Drawn code prs (d ∷ draws) = ((d.code ≡ code) × (d.prs ≡ some prs)) ⊎ Drawn code prs draws

-- What an answer says of the store: a created paste is the only change, under a key that was free,
-- and any other answer leaves the store as it was.
abbrev pub IsAnswered : Store → Text → ℕ → ℕ → List ℕ → List Draw → Store × Posted → Type 0
IsAnswered s label expires gets body draws (t, created code e) =
    (prs : List ℕ) × Drawn code prs draws
    × (e ≡ expires)
    × (lookup (paste_key prs) s.m ≡ none)
    × (length s.m < max_pastes)
    × (t ≡ record s { m = insert (paste_key prs) (new_paste label expires gets prs body) s.m })
IsAnswered s label expires gets body draws (t, unreadable) = t ≡ s
IsAnswered s label expires gets body draws (t, too_large) = t ≡ s
IsAnswered s label expires gets body draws (t, bad_request) = t ≡ s
IsAnswered s label expires gets body draws (t, server_error) = t ≡ s
IsAnswered s label expires gets body draws (t, no_room) = t ≡ s
IsAnswered s label expires gets body draws (t, out_of_codes) = t ≡ s

more_draws :
    (s : Store) (label : Text) (expires gets : ℕ) (body : List ℕ) (d : Draw) (draws : List Draw)
    (r : Store × Posted)
    → IsAnswered s label expires gets body draws r
    → IsAnswered s label expires gets body (d ∷ draws) r
more_draws s label expires gets body d draws (t, created code e)
      (prs, drawn, at, free, room, same) =
    (prs, inr drawn, at, free, room, same)
more_draws s label expires gets body d draws (t, unreadable) h = h
more_draws s label expires gets body d draws (t, too_large) h = h
more_draws s label expires gets body d draws (t, bad_request) h = h
more_draws s label expires gets body d draws (t, server_error) h = h
more_draws s label expires gets body d draws (t, no_room) h = h
more_draws s label expires gets body d draws (t, out_of_codes) h = h

added_answer :
    (s : Store) (label : Text) (expires gets : ℕ) (body : List ℕ) (d : Draw) (draws : List Draw)
    (prs : List ℕ) (again : Store × Posted)
    → d.prs ≡ some prs
    → IsAnswered s label expires gets body draws again
    → IsAnswered s label expires gets body
        (d ∷ draws)
        (add_answer s d.code expires (add s (new_paste label expires gets prs body)) again)
unfolding add new_paste
added_answer s label expires gets body d draws prs again e h =
    elim (Bool-cases (leb max_pastes (length s.m))) [
      | inl full ↦ rw full refl
      | inr room ↦ rw room (elim (Option-cases (lookup (paste_key prs) s.m)) [
        | inl free ↦
            rw (free, has_key, add_answer) (prs, inl (refl, e), refl, free, ground arith, refl)
        | inr (q, taken) ↦
            rw (taken, has_key, add_answer) (more_draws s label expires gets body d draws again h)
      ])
    ]

attempt_answer :
    (s : Store) (label : Text) (expires gets : ℕ) (body : List ℕ) (d : Draw) (draws : List Draw)
    (secret : Option (List ℕ)) (again : Store × Posted)
    → d.prs ≡ secret
    → IsAnswered s label expires gets body draws again
    → IsAnswered s label expires gets body
        (d ∷ draws)
        (attempt s label expires gets body d.code secret again)
attempt_answer s label expires gets body d draws none again e h = refl
attempt_answer s label expires gets body d draws (some prs) again e h =
    added_answer s label expires gets body d draws prs again e h

-- The loop over codes changes the store only when it answers with a code: then it has inserted the
-- posted paste, and nothing else, under the key of a secret drawn with that code, which was free, and
-- there was room. Every other answer leaves the store as it was.
pub post_loop-IsAnswered :
    (s : Store) (label : Text) (expires gets : ℕ) (body : List ℕ) (draws : List Draw)
    → IsAnswered s label expires gets body draws (post_loop s label expires gets body draws)
unfolding post_loop
post_loop-IsAnswered s label expires gets body [] = refl
post_loop-IsAnswered s label expires gets body (d ∷ draws) =
    attempt_answer s label expires gets body d draws d.prs
      (post_loop s label expires gets body draws) refl
      (post_loop-IsAnswered s label expires gets body draws)

-- The draw is of a code whose key is taken.
abbrev pub Taken : Store → Draw → Type 0
Taken s d = (prs : List ℕ) × (d.prs ≡ some prs) × (has_key (paste_key prs) s.m ≡ true)

-- While there is room, the loop ends at the first code whose key is free, however many taken codes were
-- drawn before it, and answers with that code.
pub post_loop_free :
    (s : Store) (label : Text) (expires gets : ℕ) (body : List ℕ) (taken rest : List Draw)
    (d : Draw) (prs : List ℕ)
    → length s.m < max_pastes
    → All (Taken s) taken
    → d.prs ≡ some prs
    → has_key (paste_key prs) s.m ≡ false
    → post_loop s label expires gets body (taken ++ (d ∷ rest)) ≡ (
      record s { m = insert (paste_key prs) (new_paste label expires gets prs body) s.m },
      created d.code expires,
    )
unfolding post_loop add new_paste
post_loop_free s label expires gets body [] rest d prs room h e free =
    let fits : leb max_pastes (length s.m) ≡ false = ground arith in
    rw (e, attempt, fits, free) refl
post_loop_free s label expires gets body (t ∷ taken) rest d prs room h e free =
    let fits : leb max_pastes (length s.m) ≡ false = ground arith in
    let (q, eq, used) = h.0 in
    rw (eq, attempt, fits, used)
      (post_loop_free s label expires gets body taken rest d prs room h.1 e free)

-- The lifetime that a post asks for is positive and at most a day.
pub parse_post_options_bound :
    (ps : Parsers) (q : Query) (o : PostOptions)
    → parse_post_options ps q ≡ parsed o
    → (0 < o.ttl) × (o.ttl ≤ max_ttl)
unfolding parse_post_options
parse_post_options_bound ps q o e = ground arith
