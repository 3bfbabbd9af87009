-- ===== src/Commands/Spelling.antt =====
-- What a user who types a code reaches: commands.go, daemon.go and store.go together.
use tp.Prelude.{
  ℕ, ◌+◌, ◌≤◌, ◌≡◌, refl, List, [], ◌∷◌, Bool, true, false, Option, none, some, arith, All, inl,
  inr, ap, ◌∙◌, sym, if◌then◌else◌, ltb, length, Bool-cases,
}
use tp.Prelude.Text.{Text, codes, text_eq, text_eq_iff, IsByte}
use tp.Prelude.Maps.{lookup, insert, lookup-insert}
use tp.Code.{
  Unicode, canonical, trim_space, trim_left, trim_right, digit_code, scan_digits, split, ok,
}
use tp.Store.{Store, Paste, take, paste_key, max_paste_size}
use tp.Store.History.{new_paste}
use tp.Control.{
  Parsers, Query, Daemon, Draw, Posted, created, unreadable, too_large, bad_request, server_error,
  no_room, out_of_codes, handle_post, handle_delete, parsed, bad_ttl, bad_max_gets, Options,
  parse_post_options, post_body, post_loop, round_second, touch,
}
use tp.Control.Posting.{Drawn, IsAnswered, post_loop-IsAnswered}
use tp.Control.Deleting.{handle_delete_lem}
use tp.Commands.{done, secret_of, cmd_del, del_one}

-- A draw has the secret that is derived from its code.
abbrev pub Derives : (Text → Option (List ℕ)) → Draw → Type 0
Derives derive d = d.prs ≡ derive d.code

Drawn-derive :
    (derive : Text → Option (List ℕ)) (code : Text) (prs : List ℕ) (draws : List Draw)
    → All (Derives derive) draws
    → Drawn code prs draws
    → derive code ≡ some prs
Drawn-derive derive code prs (d ∷ draws) h (inl (same, e)) = ap derive (sym same) ∙ sym h.0 ∙ e
Drawn-derive derive code prs (d ∷ draws) h (inr rest) = Drawn-derive derive code prs draws h.1 rest
Drawn-derive derive code prs [] h none_drawn = absurd none_drawn

-- The posted paste lies under the secret of its code.
abbrev pub Holds : (Text → Option (List ℕ)) → Store → Text → ℕ → List ℕ → Type 0
Holds derive s code expires body =
    (prs : List ℕ) × (label : Text) × (gets : ℕ) × (derive code ≡ some prs)
    × (lookup (paste_key prs) s.m ≡ some (new_paste label expires gets prs body))

created-injective : {c c' : Text} {e e' : ℕ} → created c e ≡ created c' e' → (c ≡ c') × (e ≡ e')
created-injective same = (cc, cc)

lookup-own : (k : Text) (p : Paste) (m : List (Text × Paste)) → lookup k (insert k p m) ≡ some p
lookup-own k p m = lookup-insert k k p m ∙ rw ((text_eq_iff k k).1 refl) refl

answered-Holds :
    (derive : Text → Option (List ℕ)) (s : Store) (label : Text) (at gets : ℕ) (body : List ℕ)
    (draws : List Draw) (r : Store × Posted) (code : Text) (expires : ℕ)
    → All (Derives derive) draws
    → IsAnswered s label at gets body draws r
    → r.1 ≡ created code expires
    → Holds derive r.0 code expires body
answered-Holds derive s label at gets body draws (t, created code' e') code expires h
      (prs, drawn, same_time, free, room, same) e =
    (
      prs,
      label,
      gets,
      ap derive (sym (created-injective e).0) ∙ Drawn-derive derive code' prs draws h drawn,
      ap (λ (x : Store). lookup (paste_key prs) x.m) same
          ∙ lookup-own (paste_key prs) (new_paste label at gets prs body) s.m
          ∙ ap (λ x. some (new_paste label x gets prs body))
              (sym same_time ∙ (created-injective e).1),
    )
answered-Holds derive s label at gets body draws (t, unreadable) code expires h a e = cc
answered-Holds derive s label at gets body draws (t, too_large) code expires h a e = cc
answered-Holds derive s label at gets body draws (t, bad_request) code expires h a e = cc
answered-Holds derive s label at gets body draws (t, server_error) code expires h a e = cc
answered-Holds derive s label at gets body draws (t, no_room) code expires h a e = cc
answered-Holds derive s label at gets body draws (t, out_of_codes) code expires h a e = cc

post_body-Holds :
    (derive : Text → Option (List ℕ)) (ps : Parsers) (d : Daemon) (q : Query) (now : ℕ)
    (draws : Bool → List Draw) (body : List ℕ) (o : Options) (code : Text) (expires : ℕ)
    → ((b : Bool) → All (Derives derive) (draws b))
    → (post_body ps d q now draws body o).1 ≡ created code expires
    → Holds derive (post_body ps d q now draws body o).0.store code expires body
post_body-Holds derive ps d q now draws body bad_ttl code expires h e = cc
post_body-Holds derive ps d q now draws body bad_max_gets code expires h e = cc
post_body-Holds derive ps d q now draws body (parsed o) code expires h e =
    let style : Bool = text_eq q.code_style (codes "digits") in
    answered-Holds derive d.store q.label (round_second (now + o.ttl)) o.max_gets body (draws style)
      (post_loop d.store q.label (round_second (now + o.ttl)) o.max_gets body (draws style)) code
      expires (h style)
      (post_loop-IsAnswered d.store q.label (round_second (now + o.ttl)) o.max_gets body
        (draws style))
      e

pub handle_post-Holds :
    (derive : Text → Option (List ℕ)) (ps : Parsers) (d : Daemon) (q : Query) (used now : ℕ)
    (draws : Bool → List Draw) (body : List ℕ) (code : Text) (expires : ℕ)
    → ((b : Bool) → All (Derives derive) (draws b))
    → (handle_post ps d q used now draws (some body)).1 ≡ created code expires
    → Holds derive (handle_post ps d q used now draws (some body)).0.store code expires body
unfolding handle_post
handle_post-Holds derive ps d q used now draws body code expires h e =
    elim (Bool-cases (ltb max_paste_size (length body))) [
      | inl large ↦ cc (rw large at e)
      | inr fits ↦ rw fits (
          post_body-Holds derive ps (touch d used) q now draws body (parse_post_options ps q) code
            expires h (rw fits at e))
    ]

-- The secret that a spelling of the code gives.
secret_of_spelling :
    (u : Unicode) (words : List Text) (derive : Text → Option (List ℕ)) (typed code : Text)
    (prs : List ℕ)
    → canonical u words typed ≡ ok code
    → derive code ≡ some prs
    → secret_of u words derive typed ≡ done prs
unfolding secret_of
secret_of_spelling u words derive typed code prs spelled derived = rw (spelled, derived) refl

take_fresh :
    (s : Store) (prs : List ℕ) (label : Text) (expires gets : ℕ) (body : List ℕ) (now : ℕ)
    → lookup (paste_key prs) s.m ≡ some (new_paste label expires gets prs body)
    → now ≤ expires
    → (take s prs now).1 ≡ some body
unfolding take new_paste
take_fresh s prs label expires gets body now there live =
    let alive : ltb expires now ≡ false = ground arith in rw (there, alive) refl

-- A paste reaches whoever types its code: when `tp post` is answered with a code, any spelling of that
-- code that `canonical` accepts gives `tp get` a secret with which the first fetch from the daemon's
-- store, until the expiry answered, returns the posted bytes; where each draw's secret is derived from
-- its code.
pub handle_post-secret_of-take :
    (u : Unicode) (words : List Text) (derive : Text → Option (List ℕ)) (ps : Parsers) (d : Daemon)
    (q : Query) (used now : ℕ) (draws : Bool → List Draw) (body : List ℕ) (code typed : Text)
    (expires asked : ℕ)
    → ((b : Bool) → All (Derives derive) (draws b))
    → (handle_post ps d q used now draws (some body)).1 ≡ created code expires
    → canonical u words typed ≡ ok code
    → asked ≤ expires
    → (prs : List ℕ) × (secret_of u words derive typed ≡ done prs)
      × ((take (handle_post ps d q used now draws (some body)).0.store prs asked).1 ≡ some body)
handle_post-secret_of-take u words derive ps d q used now draws body code typed expires asked h e
      spelled live =
    let (prs, label, gets, derived, there) =
      handle_post-Holds derive ps d q used now draws body code expires h e in
    (
      prs,
      secret_of_spelling u words derive typed code prs spelled derived,
      take_fresh (handle_post ps d q used now draws (some body)).0.store prs label expires gets body
          asked there live,
    )

del_spelling :
    (u : Unicode) (words : List Text) (derive : Text → Option (List ℕ)) (typed : Text)
    (prs : List ℕ)
    → secret_of u words derive typed ≡ done prs
    → cmd_del u words derive false typed ≡ done (del_one (paste_key prs))
unfolding cmd_del paste_key secret_of canonical trim_space trim_left trim_right digit_code
    scan_digits split
del_spelling u words derive [] prs e = cc
del_spelling u words derive (c ∷ typed) prs e = rw e refl

-- The request is answered with success, and removes what lies under the path and nothing else.
abbrev pub IsDeleted : Daemon → ℕ → Text → Type 0
IsDeleted d asked path =
    ((handle_delete d asked path).1 ≡ true)
    × ((k : Text)
        → lookup k (handle_delete d asked path).0.store.m
          ≡ (if text_eq path k then none else lookup k d.store.m))

IsDeleted-there :
    (d : Daemon) (asked : ℕ) (prs : List ℕ) (p : Paste)
    → All IsByte prs
    → lookup (paste_key prs) d.store.m ≡ some p
    → IsDeleted d asked (paste_key prs)
IsDeleted-there d asked prs p bytes there = (
  (handle_delete_lem d asked prs (paste_key prs) bytes).0
      ∙ ap (λ o. elim o [ none ↦ false | some v ↦ true ]) there,
  λ k. (handle_delete_lem d asked prs k bytes).1,
)

-- `tp del` with any spelling of a code that `tp post` was answered asks the daemon to delete the posted
-- paste: the request, at once after the post, is answered with success and removes
-- the entry under the secret's key, and no other; where each draw's secret is derived from its code
-- and is a list of bytes.
pub handle_post-cmd_del-handle_delete :
    (u : Unicode) (words : List Text) (derive : Text → Option (List ℕ)) (ps : Parsers) (d : Daemon)
    (q : Query) (used now : ℕ) (draws : Bool → List Draw) (body : List ℕ) (code typed : Text)
    (expires asked : ℕ)
    → ((b : Bool) → All (Derives derive) (draws b))
    → ((c : Text) (prs : List ℕ) → derive c ≡ some prs → All IsByte prs)
    → (handle_post ps d q used now draws (some body)).1 ≡ created code expires
    → canonical u words typed ≡ ok code
    → (path : Text) × (cmd_del u words derive false typed ≡ done (del_one path))
      × IsDeleted (handle_post ps d q used now draws (some body)).0 asked path
handle_post-cmd_del-handle_delete u words derive ps d q used now draws body code typed expires asked
      h bytes e spelled =
    let (prs, label, gets, derived, there) =
      handle_post-Holds derive ps d q used now draws body code expires h e in
    (
      paste_key prs,
      del_spelling u words derive typed prs
          (secret_of_spelling u words derive typed code prs spelled derived),
      IsDeleted-there (handle_post ps d q used now draws (some body)).0 asked prs
          (new_paste label expires gets prs body) (bytes code prs derived) there,
    )
