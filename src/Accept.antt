-- ===== src/Accept.antt =====
-- The accept loop of the data plane: `serveData` and `retryableAccept` of daemon.go, on what Accept returns
-- each time. A handshake runs in a goroutine that holds a slot until it ends; times are nanoseconds.
use tp.Prelude.{
  ℕ, zero, suc, ◌+◌, ◌-◌, ◌*◌, List, [], ◌∷◌, Bool, true, false, not, ◌&&◌, ◌||◌, Option, none,
  some, ltb, if◌then◌else◌, min,
}
use tp.Prelude.Text.{Text}
use tp.Store.{second}
use tp.Interfaces.{NetFilter, serves}
pub mod Limits
mod Runs

abbrev pub max_conns : ℕ
max_conns = 256

abbrev pub accept_retry_floor : ℕ
accept_retry_floor = 5_000_000

abbrev pub accept_retry_ceiling : ℕ
accept_retry_ceiling = second

-- The errors that `retryableAccept` names, and the others.
pub data AcceptError : Type 0 where
  emfile enfile enomem enobufs other_error : AcceptError

abbrev pub retryable_accept : AcceptError → Bool
retryable_accept emfile = true
retryable_accept enfile = true
retryable_accept enomem = true
retryable_accept enobufs = true
retryable_accept other_error = false

-- The local variables: the pause before the next retry, and the slots of `sem` that are taken. `stopped`
-- is the return.
pub record Loop : Type 0 where
  pub retry : ℕ
  pub conns : ℕ
  pub stopped : Bool

abbrev pub new_loop : Loop
new_loop = record { retry = accept_retry_floor; conns = 0; stopped = false }

-- What the loop meets: an error of Accept, with whether the context is live before and after the pause; a
-- connection, with its local host and whether it is a TLS connection; and the end of a handshake.
pub data Event : Type 0 where
  fails : AcceptError → Bool → Bool → Event
  accepts : Option Text → Bool → Event
  ends : Event

-- What a round does: it returns, pauses, closes the connection, serves it, or frees a slot.
pub data Did : Type 0 where
  returned : Did
  paused : ℕ → Did
  closed : Did
  served : Did
  freed : Did

abbrev on_error : Loop → Bool → Bool → Loop × Did
on_error l false lives = (record l { stopped = true }, returned)
on_error l true false = (record l { stopped = true }, returned)
on_error l true true = (record l { retry = min (l.retry * 2) accept_retry_ceiling }, paused l.retry)

-- `select` on the semaphore, on a loop whose pause has been reset.
abbrev on_conn : Loop → Bool → Bool → Loop × Did
on_conn l false tls = (l, closed)
on_conn l true false = (l, closed)
on_conn l true true =
    if ltb l.conns max_conns then (record l { conns = l.conns + 1 }, served) else (l, closed)

abbrev round : NetFilter → (Text → Bool) → Loop → Event → Loop × Did
round f is_loopback l (fails e live lives) = on_error l (live && retryable_accept e) lives
round f is_loopback l (accepts local tls) =
    on_conn (record l { retry = accept_retry_floor }) (serves f is_loopback local) tls
round f is_loopback l ends = (record l { conns = l.conns - 1 }, freed)

-- After the return only handshakes that still run end.
abbrev after_return : Loop → Event → Loop × Did
after_return l (fails e live lives) = (l, returned)
after_return l (accepts local tls) = (l, returned)
after_return l ends = (record l { conns = l.conns - 1 }, freed)

unfoldable pub serve_round : NetFilter → (Text → Bool) → Loop → Event → Loop × Did
serve_round f is_loopback l e = if l.stopped then after_return l e else round f is_loopback l e

unfoldable pub serve_data : NetFilter → (Text → Bool) → Loop → List Event → Loop × List Did
unfolding serve_round
serve_data f is_loopback l [] = (l, [])
serve_data f is_loopback l (e ∷ es) =
    let (l', did) = serve_round f is_loopback l e in
    let (l'', rest) = serve_data f is_loopback l' es in (l'', did ∷ rest)
