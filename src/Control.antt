-- ===== src/Control.antt =====
-- The control plane of daemon.go: what the local commands ask of the daemon. A handler gets the parsed
-- query and the time it reads, and returns the daemon's state and the answer; the HTTP layer and JSON
-- are left out. A duration is in nanoseconds and is parsed by package time, a parameter.
use tp.Prelude.{
  ℕ, zero, suc, ◌+◌, ◌*◌, ◌/◌, List, [], ◌∷◌, Bool, true, false, not, ◌&&◌, ◌||◌, Option, none,
  some, ltb, leb, if◌then◌else◌, length,
}
use tp.Prelude.Int.{ℤ, pos, negsuc}
use tp.Prelude.Text.{Text, codes, text_eq}
use tp.Hex.{hex_decode}
use tp.Store.{
  Store, Paste, AddResult, added, too_many, collision, add, del, clear, list, max_paste_size,
  default_ttl, max_ttl, second,
}
use tp.Store.History.{new_paste}
pub mod Posting
pub mod Deleting
mod Runs

-- `d.store` and `d.lastUsed`.
pub record Daemon : Type 0 where
  pub store : Store
  pub last_used : ℕ

unfoldable pub touch : Daemon → ℕ → Daemon
touch d now = record d { last_used = now / second }

-- `shouldStop`: no pastes, and idle for half an hour.
abbrev pub idle_timeout : ℕ
idle_timeout = 1800 * second

abbrev is_empty : List (Text × Paste) → Bool
is_empty [] = true
is_empty (e ∷ m) = false

unfoldable pub should_stop : Daemon → ℕ → Bool
should_stop d now =
    is_empty d.store.m && ltb (d.last_used * second + idle_timeout) (now / second * second)

-- time.ParseDuration and strconv.Atoi.
pub record Parsers : Type 0 where
  pub parse_duration : Text → Option ℤ
  pub atoi : Text → Option ℤ

pub record Query : Type 0 where
  pub label : Text
  pub ttl : Text
  pub max_gets : Text
  pub code_style : Text

pub record PostOptions : Type 0 where
  pub ttl : ℕ
  pub max_gets : ℕ

-- `ttl must be positive and at most 24h`, `max_gets must be a non-negative integer`.
pub data Options : Type 0 where
  parsed : PostOptions → Options
  bad_ttl bad_max_gets : Options

abbrev pub ttl_value : Option ℤ → Option ℕ
ttl_value none = none
ttl_value (some (negsuc n)) = none
ttl_value (some (pos n)) = if ltb 0 n && leb n max_ttl then some n else none

abbrev pub gets_value : Option ℤ → Option ℕ
gets_value none = none
gets_value (some (negsuc n)) = none
gets_value (some (pos n)) = some n

abbrev pub ttl_of : Parsers → Text → Option ℕ
ttl_of ps [] = some default_ttl
ttl_of ps (c ∷ v) = ttl_value (ps.parse_duration (c ∷ v))

abbrev pub gets_of : Parsers → Text → Option ℕ
gets_of ps [] = some 0
gets_of ps (c ∷ v) = gets_value (ps.atoi (c ∷ v))

abbrev pub options_of : Option ℕ → Option ℕ → Options
options_of none gets = bad_ttl
options_of (some ttl) none = bad_max_gets
options_of (some ttl) (some gets) = parsed (record { ttl = ttl; max_gets = gets })

unfoldable pub parse_post_options : Parsers → Query → Options
parse_post_options ps q = options_of (ttl_of ps q.ttl) (gets_of ps q.max_gets)

-- The answers of `handlePost`.
pub data Posted : Type 0 where
  created : Text → ℕ → Posted
  unreadable too_large bad_request server_error no_room : Posted
  -- The loop has drawn a taken code in each of the given rounds.
  out_of_codes : Posted

-- One round of the loop draws a code and derives its secret; none is an error of derivePRS.
pub record Draw : Type 0 where
  pub code : Text
  pub prs : Option (List ℕ)

abbrev pub add_answer : Store → Text → ℕ → AddResult → Store × Posted → Store × Posted
add_answer s code expires (added t) again = (t, created code expires)
add_answer s code expires too_many again = (s, no_room)
add_answer s code expires collision again = again

abbrev pub attempt :
    Store → Text → ℕ → ℕ → List ℕ → Text → Option (List ℕ) → Store × Posted → Store × Posted
attempt s label expires gets body code none again = (s, server_error)
attempt s label expires gets body code (some prs) again =
    add_answer s code expires (add s (new_paste label expires gets prs body)) again

-- The loop: it ends at the first code that does not collide. The rounds that may be needed are the
-- draws.
unfoldable pub post_loop : Store → Text → ℕ → ℕ → List ℕ → List Draw → Store × Posted
post_loop s label expires gets body [] = (s, out_of_codes)
post_loop s label expires gets body (d ∷ draws) =
    attempt s label expires gets body d.code d.prs (post_loop s label expires gets body draws)

-- `Round(time.Second)`: half up.
abbrev pub round_second : ℕ → ℕ
round_second t = (t + second / 2) / second * second

abbrev pub post_body :
    Parsers → Daemon → Query → ℕ → (Bool → List Draw) → List ℕ → Options → Daemon × Posted
post_body ps d q now draws body bad_ttl = (d, bad_request)
post_body ps d q now draws body bad_max_gets = (d, bad_request)
post_body ps d q now draws body (parsed o) =
    let r : Store × Posted =
      post_loop d.store q.label (round_second (now + o.ttl)) o.max_gets body
        (draws (text_eq q.code_style (codes "digits"))) in
    (record d { store = r.0 }, r.1)

-- `handlePost`: the body is none where it cannot be read, and `draws` are those of newDigitCode or of
-- newCode.
unfoldable pub handle_post :
    Parsers → Daemon → Query → ℕ → ℕ → (Bool → List Draw) → Option (List ℕ) → Daemon × Posted
unfolding touch parse_post_options post_loop
handle_post ps d q used now draws none = (touch d used, unreadable)
handle_post ps d q used now draws (some body) =
    if ltb max_paste_size (length body)
    then (touch d used, too_large)
    else post_body ps (touch d used) q now draws body (parse_post_options ps q)

unfoldable pub handle_list : Daemon → ℕ → Daemon × List Paste
unfolding touch
handle_list d used = (touch d used, list d.store)

abbrev pub del_decoded : Store → Option (List ℕ) → Store × Bool
del_decoded s none = (s, false)
del_decoded s (some prs) = del s prs

-- True is 204 No Content, false is 404.
unfoldable pub handle_delete : Daemon → ℕ → Text → Daemon × Bool
unfolding touch
handle_delete d used path =
    let r : Store × Bool = del_decoded d.store (hex_decode path) in
    (record (touch d used) { store = r.0 }, r.1)

unfoldable pub handle_delete_all : Daemon → ℕ → Daemon
unfolding touch
handle_delete_all d used = record (touch d used) { store = clear d.store }
