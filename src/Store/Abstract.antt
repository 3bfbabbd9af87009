-- ===== src/Store/Abstract.antt =====
-- What the store of store.go promises its clients, without its map, its entries' counters or its order: for
-- each key nothing, a spent paste, or a payload with an expiry and the fetches that it has left.
use tp.Prelude.{
  ℕ, zero, suc, ◌-◌, ◌≡◌, List, [], ◌∷◌, Bool, true, false, not, Option, none, some, ltb, leb, ◌==◌,
  if◌then◌else◌,
}
use tp.Prelude.Text.{Text, text_eq}
use tp.Prelude.Maps.{lookup}
use tp.Store.{Store, Paste, AddResult, added, too_many, collision, add, take, del, paste_key}
use tp.Store.History.{Op, posts, takes, dels, clears, sweeps, new_paste, step}

pub data Slot : Type 0 where
  empty : Slot
  -- Its expiry remains: the sweep removes it then.
  spent : ℕ → Slot
  -- The payload, the expiry, and the fetches left; none is no limit.
  holds : List ℕ → ℕ → Option ℕ → Slot

abbrev pub View : Type 0
View = Text → Slot

-- What a client is told.
pub data Reply : Type 0 where
  posted : Reply
  full : Reply
  taken : Reply
  payload : Option (List ℕ) → Reply
  deleted : Bool → Reply
  done : Reply

-- MaxGets 0 is no limit.
abbrev pub limit_of : ℕ → Option ℕ
limit_of zero = none
limit_of (suc n) = some (suc n)

abbrev pub is_empty : Slot → Bool
is_empty empty = true
is_empty (spent e) = false
is_empty (holds b e n) = false

-- What a fetch at `now` gets.
abbrev pub offered : ℕ → Slot → Option (List ℕ)
offered now empty = none
offered now (spent e) = none
offered now (holds b e n) = if ltb e now then none else some b

abbrev used : List ℕ → ℕ → Option ℕ → Slot
used b e none = holds b e none
used b e (some n) = if leb n 1 then spent e else holds b e (some (n - 1))

-- What a fetch at `now` leaves.
abbrev pub after : ℕ → Slot → Slot
after now empty = empty
after now (spent e) = spent e
after now (holds b e n) = if ltb e now then holds b e n else used b e n

abbrev pub swept : ℕ → Slot → Slot
swept now empty = empty
swept now (spent e) = if ltb e now then empty else spent e
swept now (holds b e n) = if ltb e now then empty else holds b e n

-- One slot changes, and no other.
abbrev pub Changes : View → Text → Slot → View → Type 0
Changes v key new w = (k : Text) → w k ≡ (if text_eq key k then new else v k)

abbrev pub Same : View → View → Type 0
Same v w = (k : Text) → w k ≡ v k

-- The replies that are allowed to an operation, and what it then does. A post may be refused for want of
-- room at any time; every other reply is determined.
abbrev pub Allows : View → Op → Reply → View → Type 0
Allows v (posts l e n prs b) posted w =
    (v (paste_key prs) ≡ empty) × Changes v (paste_key prs) (holds b e (limit_of n)) w
Allows v (posts l e n prs b) full w = Same v w
Allows v (posts l e n prs b) taken w = (is_empty (v (paste_key prs)) ≡ false) × Same v w
Allows v (posts l e n prs b) (payload o) w = ⊥
Allows v (posts l e n prs b) (deleted d) w = ⊥
Allows v (posts l e n prs b) done w = ⊥
Allows v (takes prs now) (payload o) w =
    (o ≡ offered now (v (paste_key prs)))
    × Changes v (paste_key prs) (after now (v (paste_key prs))) w
Allows v (takes prs now) posted w = ⊥
Allows v (takes prs now) full w = ⊥
Allows v (takes prs now) taken w = ⊥
Allows v (takes prs now) (deleted d) w = ⊥
Allows v (takes prs now) done w = ⊥
Allows v (dels prs) (deleted d) w =
    (d ≡ not (is_empty (v (paste_key prs)))) × Changes v (paste_key prs) empty w
Allows v (dels prs) posted w = ⊥
Allows v (dels prs) full w = ⊥
Allows v (dels prs) taken w = ⊥
Allows v (dels prs) (payload o) w = ⊥
Allows v (dels prs) done w = ⊥
Allows v clears done w = (k : Text) → w k ≡ empty
Allows v clears posted w = ⊥
Allows v clears full w = ⊥
Allows v clears taken w = ⊥
Allows v clears (payload o) w = ⊥
Allows v clears (deleted d) w = ⊥
Allows v (sweeps now) done w = (k : Text) → w k ≡ swept now (v k)
Allows v (sweeps now) posted w = ⊥
Allows v (sweeps now) full w = ⊥
Allows v (sweeps now) taken w = ⊥
Allows v (sweeps now) (payload o) w = ⊥
Allows v (sweeps now) (deleted d) w = ⊥

-- A history of operations and replies that is allowed from a view.
pub data Allowed : View → List (Op × Reply) → View → Type 0 where
  ended : {v : View} → Allowed v [] v
  then' :
      {v w x : View} {o : Op} {r : Reply} {rest : List (Op × Reply)}
      → Allows v o r w
      → Allowed w rest x
      → Allowed v ((o, r) ∷ rest) x

abbrev pub slot_of : Paste → Slot
slot_of p =
    if p.burned
    then spent p.expires_at
    else holds p.body p.expires_at (if p.max_gets == 0 then none else some (p.max_gets - p.gets))

abbrev pub slot : Option Paste → Slot
slot none = empty
slot (some p) = slot_of p

-- What a store shows.
abbrev pub view : Store → View
view s k = slot (lookup k s.m)

abbrev pub add_reply : AddResult → Reply
add_reply (added t) = posted
add_reply too_many = full
add_reply collision = taken

-- What the store answers.
unfoldable pub reply : Store → Op → Reply
reply s (posts l e n prs b) = add_reply (add s (new_paste l e n prs b))
reply s (takes prs now) = payload (take s prs now).1
reply s (dels prs) = deleted (del s prs).1
reply s clears = done
reply s (sweeps now) = done

unfoldable pub log : Store → List Op → List (Op × Reply)
unfolding reply step
log s [] = []
log s (o ∷ os) = (o, reply s o) ∷ log (step s o) os
