-- ===== src/Store.antt =====
-- store.go: the pastes that the daemon holds in memory, keyed by the hex form of their PAKE secret.
-- Each method runs under the store's lock, so it is one step of the state; the time that a method
-- reads is its argument. A time is a number of nanoseconds.
use tp.Prelude.{
  ℕ, zero, suc, ◌+◌, ◌-◌, ◌*◌, ◌^◌, List, [], ◌∷◌, ◌++◌, map, Bool, true, false, not, ◌&&◌, ◌||◌,
  Option, none, some, ltb, leb, if◌then◌else◌, length, replicate,
}
use tp.Prelude.Text.{Text}
use tp.Prelude.Maps.{lookup, insert, delete, keep_if, has_key, values}
use tp.Hex.{hex_encode}
use tp.Random.{shuffle}
pub mod Invariant
pub mod Padding
pub mod Serving
pub mod Offers
pub mod Offered
pub mod History
pub mod Deleting
pub mod Abstract
pub mod Refining
mod Runs

abbrev pub max_paste_size : ℕ
max_paste_size = 2 ^ 20

abbrev pub max_pastes : ℕ
max_pastes = 256

abbrev pub min_candidates : ℕ
min_candidates = 4

abbrev pub max_candidates : ℕ
max_candidates = 512

-- Durations are in nanoseconds, as in package time.
abbrev pub second : ℕ
second = 1_000_000_000

abbrev pub default_ttl : ℕ
default_ttl = 3600 * second

abbrev pub max_ttl : ℕ
max_ttl = 24 * 3600 * second

-- The fields of `paste`; `body` is its `data`. MaxGets is never negative (parsePostOptions).
pub record Paste : Type 0 where
  pub label : Text
  pub size : ℕ
  pub expires_at : ℕ
  pub max_gets : ℕ
  pub gets : ℕ
  pub burned : Bool
  pub prs : List ℕ
  pub body : List ℕ

pub record Store : Type 0 where
  pub m : List (Text × Paste)
  pub decoy : List ℕ

-- What `add` returns.
pub data AddResult : Type 0 where
  added : Store → AddResult
  too_many collision : AddResult

unfoldable pub new_store : List ℕ → Store
new_store decoy = record { m = []; decoy = decoy }

unfoldable pub paste_key : List ℕ → Text
paste_key prs = hex_encode prs

unfoldable pub add : Store → Paste → AddResult
add s p =
    if leb max_pastes (length s.m)
    then too_many
    else if has_key (paste_key p.prs) s.m
    then collision
    else added (record s { m = insert (paste_key p.prs) p s.m })

-- `now.After(p.ExpiresAt)`
abbrev pub is_expired : ℕ → Paste → Bool
is_expired now p = ltb p.expires_at now

abbrev pub is_live : ℕ → Paste → Bool
is_live now p = not (p.burned || is_expired now p)

-- The secrets of the pastes that can still be fetched.
unfoldable pub live_secrets : ℕ → List Paste → List (List ℕ)
live_secrets now [] = []
live_secrets now (p ∷ ps) =
    if is_live now p then p.prs ∷ live_secrets now ps else live_secrets now ps

-- The loop of `paddedCount`: it doubles `n` while there is no room for a decoy.
unfoldable pub padded_loop : ℕ → ℕ → ℕ → ℕ
padded_loop zero live n = n
padded_loop (suc fuel) live n =
    let more = padded_loop fuel live (n * 2) in
    if ltb n (live + 1) && ltb n max_candidates then more else n

-- From 4 to 512 are seven doublings.
unfoldable pub padded_count : ℕ → ℕ
unfolding padded_loop
padded_count live = padded_loop 7 live min_candidates

-- The loop that appends the decoy up to the target.
unfoldable pub pad_to : ℕ → List ℕ → List (List ℕ) → List (List ℕ)
pad_to target decoy out = out ++ replicate (target - length out) decoy

-- `pick i` is what `randIndex(i + 1)` returns in the round `i` of the shuffle.
unfoldable pub candidates : Store → ℕ → (ℕ → ℕ) → List (List ℕ)
unfolding live_secrets padded_count pad_to shuffle
candidates s now pick =
    let live = live_secrets now (values s.m) in
    shuffle pick (pad_to (padded_count (length live)) s.decoy live)

-- The payload is cleared and the metadata kept.
unfoldable pub burn : Paste → Paste
burn p = record p { body = []; burned = true }

-- The stored paste after a fetch.
unfoldable pub after_take : Paste → Paste
unfolding burn
after_take p =
    let q : Paste = record p { gets = p.gets + 1 } in
    if ltb 0 q.max_gets && leb q.max_gets q.gets then burn q else q

abbrev pub take_found : Store → Text → ℕ → Option Paste → Store × Option (List ℕ)
take_found s k now none = (s, none)
take_found s k now (some p) =
    if p.burned || is_expired now p
    then (s, none)
    else (record s { m = insert k (after_take p) s.m }, some p.body)

-- The new store and the copy of the payload, or none.
unfoldable pub take : Store → List ℕ → ℕ → Store × Option (List ℕ)
unfolding after_take
take s prs now = take_found s (paste_key prs) now (lookup (paste_key prs) s.m)

abbrev metadata : Paste → Paste
metadata p = record p { prs = []; body = [] }

unfoldable pub list : Store → List Paste
list s = map metadata (values s.m)

abbrev del_found : Store → Text → Option Paste → Store × Bool
del_found s k none = (s, false)
del_found s k (some p) = (record s { m = delete k s.m }, true)

-- The new store, and whether the paste was there. The burnt paste leaves the map at once.
unfoldable pub del : Store → List ℕ → Store × Bool
del s prs = del_found s (paste_key prs) (lookup (paste_key prs) s.m)

unfoldable pub clear : Store → Store
clear s = record s { m = [] }

unfoldable pub sweep : Store → ℕ → Store
sweep s now = record s { m = keep_if (λ p. not (is_expired now p)) s.m }
