-- ===== src/Limiter.antt =====
-- limits.go: rate limits per address and for the whole daemon. Times are nanoseconds of the monotonic
-- clock, and 0 is Go's zero time. The code counts tokens as float64; here a token is 3 * 10^9 units,
-- so that each of the program's rates (20 a minute, 10 and 5 a second) refills a whole number of
-- units each nanosecond and the sums are exact, where the code's are rounded. A clock value is
-- read before the lock is taken, so it may lie before `last`: elapsed time and tokens are integers.
use tp.Prelude.{
  ℕ, ◌+◌, ◌-◌, ◌*◌, List, [], ◌∷◌, ◌++◌, Bool, true, false, not, ◌&&◌, Option, none, some, ltb, leb,
  ◌==◌, if◌then◌else◌, length,
}
use tp.Prelude.Int.{ℤ, pos, negsuc, sub_ℕ, ◌+ℤ◌, ◌-ℤ◌, ltb_ℤ}
use tp.Prelude.Text.{Text}
use tp.Prelude.Maps.{lookup, insert, keep_if}
use tp.Store.{second}
pub mod Rate
pub mod Sources
pub mod Counting
pub mod Blocking
mod Runs

-- Units in a token.
abbrev pub token : ℕ
token = 3 * second

abbrev pub rate_burst : ℕ
rate_burst = 20 * token

-- Twenty a minute, in units a nanosecond.
abbrev pub rate_per_minute : ℕ
rate_per_minute = 1

abbrev pub block_after : ℕ
block_after = 50

abbrev pub block_window : ℕ
block_window = 600 * second

abbrev pub block_for : ℕ
block_for = 3600 * second

abbrev pub global_burst : ℕ
global_burst = 60 * token

-- Ten a second, in units a nanosecond.
abbrev pub global_per_second : ℕ
global_per_second = 30

pub record Bucket : Type 0 where
  pub tokens : ℤ
  pub last : ℕ

abbrev pub zero_bucket : Bucket
zero_bucket = record { tokens = pos 0; last = 0 }

abbrev pub min_ℤ : ℤ → ℤ → ℤ
min_ℤ a b = if ltb_ℤ b a then b else a

-- A bucket starts full at its first use.
abbrev pub started : Bucket → ℕ → ℕ → Bucket
started b now burst = if b.last == 0 then record { tokens = pos burst; last = now } else b

-- `now.Sub(b.last).Seconds() * perSecond`, in units.
abbrev pub refill : ℕ → ℕ → ℕ → ℤ
refill now last rate = sub_ℕ (now * rate) (last * rate)

-- The rest of `take`, on a bucket that has been used.
unfoldable pub spend : Bucket → ℕ → ℕ → ℕ → Bucket × Bool
unfolding ◌+ℤ◌ ◌-ℤ◌
spend b now burst rate =
    let t : ℤ = min_ℤ (pos burst) (b.tokens +ℤ refill now b.last rate) in
    if ltb_ℤ t (pos token)
    then (record { tokens = t; last = now }, false)
    else (record { tokens = t -ℤ pos token; last = now }, true)

-- `bucket.take`: the new bucket, and whether a token was there.
unfoldable pub take : Bucket → ℕ → ℕ → ℕ → Bucket × Bool
unfolding spend
take b now burst rate = spend (started b now burst) now burst rate

pub record IpState : Type 0 where
  pub bucket : Bucket
  pub last_seen : ℕ
  pub failures : List ℕ
  pub blocked : ℕ

pub record Limiter : Type 0 where
  pub ip : List (Text × IpState)
  pub global : Bucket

abbrev pub new_limiter : Limiter
new_limiter = record { ip = []; global = zero_bucket }

abbrev pub fresh_state : IpState
fresh_state = record { bucket = zero_bucket; last_seen = 0; failures = []; blocked = 0 }

abbrev pub state_of : Option IpState → IpState
state_of none = fresh_state
state_of (some s) = s

-- The entry of an address after `allowPeer`, and the answer.
unfoldable pub admit : IpState → ℕ → IpState × Bool
unfolding take
admit s now =
    if ltb now s.blocked
    then (record s { last_seen = now }, false)
    else let (b, allowed) = take s.bucket now rate_burst rate_per_minute in
      (record s { bucket = b; last_seen = now }, allowed)

unfoldable pub allow_peer : Limiter → Text → ℕ → Limiter × Bool
unfolding admit
allow_peer l addr now =
    let (s, allowed) = admit (state_of (lookup addr l.ip)) now in
    (record l { ip = insert addr s l.ip }, allowed)

unfoldable pub allow_exchange : Limiter → ℕ → Limiter × Bool
unfolding take
allow_exchange l now =
    let (b, allowed) = take l.global now global_burst global_per_second in
    (record l { global = b }, allowed)

-- `now.Sub(t) < blockWindow`
unfoldable pub recent : ℕ → List ℕ → List ℕ
recent now [] = []
recent now (t ∷ ts) = if ltb now (t + block_window) then t ∷ recent now ts else recent now ts

unfoldable pub failed : IpState → ℕ → IpState
unfolding recent
failed s now =
    let fs : List ℕ = recent now s.failures ++ now ∷ [] in
    if leb block_after (length fs)
    then record s { failures = []; blocked = now + block_for }
    else record s { failures = fs }

abbrev pub fail_found : Limiter → Text → ℕ → Option IpState → Limiter
fail_found l addr now none = l
fail_found l addr now (some s) = record l { ip = insert addr (failed s now) l.ip }

unfoldable pub fail : Limiter → Text → ℕ → Limiter
unfolding failed
fail l addr now = fail_found l addr now (lookup addr l.ip)

-- `now.After(s.blocked) && now.Sub(s.lastSeen) > blockWindow`
abbrev pub is_stale : ℕ → IpState → Bool
is_stale now s = ltb s.blocked now && ltb (s.last_seen + block_window) now

unfoldable pub sweep : Limiter → ℕ → Limiter
sweep l now = record l { ip = keep_if (λ s. not (is_stale now s)) l.ip }

pub data Op : Type 0 where
  peers : Text → ℕ → Op
  exchanges : ℕ → Op
  fails : Text → ℕ → Op
  sweeps : ℕ → Op

abbrev pub time : Op → ℕ
time (peers addr now) = now
time (exchanges now) = now
time (fails addr now) = now
time (sweeps now) = now

unfoldable pub step : Limiter → Op → Limiter
step l (peers addr now) = (allow_peer l addr now).0
step l (exchanges now) = (allow_exchange l now).0
step l (fails addr now) = fail l addr now
step l (sweeps now) = sweep l now

-- The operations of the limiter in a row.
unfoldable pub limit_run : Limiter → List Op → Limiter
limit_run l [] = l
limit_run l (o ∷ os) = limit_run (step l o) os
