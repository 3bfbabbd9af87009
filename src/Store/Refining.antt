-- ===== src/Store/Refining.antt =====
-- The store of store.go refines its contract.
use tp.Prelude.{
  ℕ, zero, suc, ◌≡◌, refl, List, [], ◌∷◌, Bool, true, false, not, ◌||◌, Option, none, some, leb,
  if◌then◌else◌, arith, length, Option-cases, Bool-cases, inl, inr, ap, ◌∙◌, sym, subst,
}
use tp.Prelude.Text.{Text, text_eq, text_eq_iff}
use tp.Prelude.Maps.{lookup, insert, has_key, lookup-insert, lookup-keep_if, Entries-lookup}
use tp.Store.{
  Store, Paste, AddResult, added, too_many, collision, add, take, del, clear, sweep, paste_key,
  after_take, burn, is_expired, take_found, max_pastes,
}
use tp.Store.Invariant.{IsValid, IsEntry, IsIntact, step-IsValid}
use tp.Store.Deleting.{del_lem}
use tp.Store.History.{Op, posts, takes, dels, clears, sweeps, new_paste, after_add, step, run}
use tp.Store.Abstract.{
  Slot, empty, holds, View, deleted, done, limit_of, is_empty, offered, after, swept, Changes,
  Allows, Allowed, ended, then', slot_of, slot, view, add_reply, reply, log,
}

slot_fresh :
    (l : Text) (e n : ℕ) (prs b : List ℕ) → slot_of (new_paste l e n prs b) ≡ holds b e (limit_of n)
unfolding new_paste
slot_fresh l e zero prs b = refl
slot_fresh l e (suc n) prs b = ground arith

slot_occupied : (p : Paste) → is_empty (slot_of p) ≡ false
slot_occupied p = ground arith

slot-if :
    (c : Bool) (p : Paste) (o : Option Paste)
    → slot (if c then some p else o) ≡ (if c then slot_of p else slot o)
slot-if true p o = refl
slot-if false p o = refl

Changes-insert :
    (s : Store) (key : Text) (p : Paste)
    → Changes (view s) key (slot_of p) (view (record s { m = insert key p s.m }))
Changes-insert s key p k =
    ap slot (lookup-insert key k p s.m) ∙ slot-if (text_eq key k) p (lookup k s.m)

-- What the result of `add` has to satisfy.
abbrev PostAllows : Store → Text → ℕ → ℕ → List ℕ → List ℕ → AddResult → Type 0
PostAllows s l e n prs b r =
    Allows (view s) (posts l e n prs b) (add_reply r) (view (after_add s r))

post_added :
    (s : Store) (l : Text) (e n : ℕ) (prs b : List ℕ)
    → lookup (paste_key prs) s.m ≡ none
    → PostAllows s l e n prs b
        (added (record s { m = insert (paste_key prs) (new_paste l e n prs b) s.m }))
post_added s l e n prs b free = (
  ap slot free,
  subst
      (λ x.
        Changes (view s) (paste_key prs) x
          (view (record s { m = insert (paste_key prs) (new_paste l e n prs b) s.m })))
      (slot_fresh l e n prs b) (Changes-insert s (paste_key prs) (new_paste l e n prs b)),
)

post_taken :
    (s : Store) (l : Text) (e n : ℕ) (prs b : List ℕ) (q : Paste)
    → lookup (paste_key prs) s.m ≡ some q
    → PostAllows s l e n prs b collision
post_taken s l e n prs b q there = (ap (λ o. is_empty (slot o)) there ∙ slot_occupied q, λ k. refl)

posts-Allows :
    (s : Store) (l : Text) (e n : ℕ) (prs b : List ℕ)
    → PostAllows s l e n prs b (add s (new_paste l e n prs b))
unfolding add new_paste
posts-Allows s l e n prs b = elim (Bool-cases (leb max_pastes (length s.m))) [
  | inl no_room ↦ subst (PostAllows s l e n prs b) {x = too_many} (rw no_room refl) (λ k. refl)
  | inr room ↦ elim (Option-cases (lookup (paste_key prs) s.m)) [
    | inl free ↦
        subst (PostAllows s l e n prs b)
          {x = added (record s { m = insert (paste_key prs) (new_paste l e n prs b) s.m })}
          (rw (room, has_key, free) refl) (post_added s l e n prs b free)
    | inr (q, there) ↦
        subst (PostAllows s l e n prs b) {x = collision} (rw (room, has_key, there) refl)
          (post_taken s l e n prs b q there)
  ]
]

slot-after_take :
    (p : Paste) (now : ℕ)
    → IsIntact p
    → (p.burned || is_expired now p) ≡ false
    → slot_of (after_take p) ≡ after now (slot_of p)
unfolding after_take burn
slot-after_take p now i live = ground arith

refused_offer :
    (p : Paste) (now : ℕ) → (p.burned || is_expired now p) ≡ true → offered now (slot_of p) ≡ none
refused_offer p now e = ground arith

refused_after :
    (p : Paste) (now : ℕ)
    → (p.burned || is_expired now p) ≡ true
    → after now (slot_of p) ≡ slot_of p
refused_after p now e = ground arith

served_offer :
    (p : Paste) (now : ℕ)
    → (p.burned || is_expired now p) ≡ false
    → offered now (slot_of p) ≡ some p.body
served_offer p now e = ground arith

unchanged : (v : View) (key k : Text) → v k ≡ (if text_eq key k then v key else v k)
unchanged v key k = elim (Bool-cases (text_eq key k)) [
  | inl same ↦ rw same (ap v (sym ((text_eq_iff key k).0 same)))
  | inr differs ↦ rw differs refl
]

-- What the result of a fetch has to satisfy.
abbrev TakeAllows : Store → Text → ℕ → Store × Option (List ℕ) → Type 0
TakeAllows s key now r =
    (r.1 ≡ offered now (view s key)) × Changes (view s) key (after now (view s key)) (view r.0)

take_nothing :
    (s : Store) (key : Text) (now : ℕ) (x : Slot)
    → view s key ≡ x
    → offered now x ≡ none
    → after now x ≡ x
    → TakeAllows s key now (s, none)
take_nothing s key now x at no_offer same = (
  sym (ap (offered now) at ∙ no_offer),
  λ k.
      unchanged (view s) key k
      ∙ ap (λ (y : Slot). if text_eq key k then y else view s k)
          (at ∙ sym same ∙ ap (after now) (sym at)),
)

found-Allows :
    (s : Store) (key : Text) (now : ℕ) (o : Option Paste)
    → lookup key s.m ≡ o
    → ((p : Paste) → o ≡ some p → IsIntact p)
    → TakeAllows s key now (take_found s key now o)
found-Allows s key now none e i = take_nothing s key now empty (ap slot e) refl refl
found-Allows s key now (some p) e i = elim (Bool-cases (p.burned || is_expired now p)) [
  | inl refused ↦ rw refused (
      take_nothing s key now (slot_of p) (ap slot e) (refused_offer p now refused)
        (refused_after p now refused))
  | inr live ↦ rw live (
    sym (ap (λ o. offered now (slot o)) e ∙ served_offer p now live),
    λ k.
        Changes-insert s key (after_take p) k
        ∙ ap (λ (y : Slot). if text_eq key k then y else view s k)
            (slot-after_take p now (i p refl) live ∙ ap (λ o. after now (slot o)) (sym e)),
  )
]

takes-Allows :
    (s : Store) (prs : List ℕ) (now : ℕ)
    → IsValid s
    → TakeAllows s (paste_key prs) now (take s prs now)
unfolding take
takes-Allows s prs now v =
    found-Allows s (paste_key prs) now (lookup (paste_key prs) s.m) refl
      (λ p e. (Entries-lookup IsEntry (paste_key prs) p s.m v.entries e).1)

slot-not_there :
    (o : Option Paste) → (elim o [ none ↦ false | some p ↦ true ]) ≡ not (is_empty (slot o))
slot-not_there none = refl
slot-not_there (some p) = ground (arith, slot_occupied p)

slot-if_gone :
    (c : Bool) (o : Option Paste) → slot (if c then none else o) ≡ (if c then empty else slot o)
slot-if_gone true o = refl
slot-if_gone false o = refl

dels-Allows :
    (s : Store) (prs : List ℕ)
    → Allows (view s) (dels prs) (deleted (del s prs).1) (view (del s prs).0)
dels-Allows s prs = (
  (del_lem s prs (paste_key prs)).0 ∙ slot-not_there (lookup (paste_key prs) s.m),
  λ k. ap slot (del_lem s prs k).1 ∙ slot-if_gone (text_eq (paste_key prs) k) (lookup k s.m),
)

slot-swept :
    (now : ℕ) (o : Option Paste)
    → slot (elim o [ none ↦ none | some p ↦ if not (is_expired now p) then some p else none ])
      ≡ swept now (slot o)
slot-swept now none = refl
slot-swept now (some p) = ground arith

sweeps-Allows :
    (s : Store) (now : ℕ) → IsValid s → Allows (view s) (sweeps now) done (view (sweep s now))
unfolding sweep
sweeps-Allows s now v k =
    ap slot (lookup-keep_if (λ p. not (is_expired now p)) k s.m v.distinct)
    ∙ slot-swept now (lookup k s.m)

-- One operation of the store is one that the contract allows.
step-Allows : (s : Store) (o : Op) → IsValid s → Allows (view s) o (reply s o) (view (step s o))
unfolding reply step clear lookup
step-Allows s (posts l e n prs b) v = posts-Allows s l e n prs b
step-Allows s (takes prs now) v = takes-Allows s prs now v
step-Allows s (dels prs) v = dels-Allows s prs
step-Allows s clears v = λ k. refl
step-Allows s (sweeps now) v = sweeps-Allows s now v

-- The store refines its contract: from a well-formed store, the replies to any sequence of posts, fetches,
-- deletions, clearings and sweeps are replies that the contract allows, where a fetch gets exactly the
-- payload of the slot under its secret while its expiry is not past and fetches are left, each fetch uses
-- one, a deletion answers whether the slot was occupied, and a post is answered with a code only into an
-- empty slot; and what the final store shows is the contract's final view.
pub log-Allowed :
    (s : Store) (os : List Op) → IsValid s → Allowed (view s) (log s os) (view (run s os))
unfolding log run
log-Allowed s [] v = ended
log-Allowed s (o ∷ os) v =
    then' (step-Allows s o v) (log-Allowed (step s o) os (step-IsValid s o v))
