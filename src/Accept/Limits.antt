-- ===== src/Accept/Limits.antt =====
-- The bounds that `serveData` of daemon.go keeps.
use tp.Prelude.{
  ℕ, ◌+◌, ◌-◌, ◌≤◌, ◌≡◌, refl, List, [], ◌∷◌, Bool, true, false, ◌&&◌, arith, if◌then◌else◌, All,
  ap, sym, ◌∙◌,
}
use tp.Prelude.Text.{Text}
use tp.Interfaces.{NetFilter, serves}
use tp.Accept.{
  max_conns, accept_retry_floor, accept_retry_ceiling, retryable_accept, Loop, Event, fails,
  accepts, ends, Did, returned, paused, closed, served, freed, on_error, on_conn, round,
  after_return, serve_round, serve_data,
}

abbrev pub IsBounded : Loop → Type 0
IsBounded l =
    (accept_retry_floor ≤ l.retry) × (l.retry ≤ accept_retry_ceiling) × (l.conns ≤ max_conns)

-- A pause is between 5 ms and a second.
abbrev pub IsShort : Did → Type 0
IsShort returned = Unit {0}
IsShort (paused t) = (accept_retry_floor ≤ t) × (t ≤ accept_retry_ceiling)
IsShort closed = Unit {0}
IsShort served = Unit {0}
IsShort freed = Unit {0}

-- Handshakes that began and have not ended.
abbrev pub running : ℕ → List Did → ℕ
running n [] = n
running n (returned ∷ ds) = running n ds
running n (paused t ∷ ds) = running n ds
running n (closed ∷ ds) = running n ds
running n (served ∷ ds) = running (n + 1) ds
running n (freed ∷ ds) = running (n - 1) ds

abbrev counted : ℕ → Did → ℕ
counted n returned = n
counted n (paused t) = n
counted n closed = n
counted n served = n + 1
counted n freed = n - 1

running-counted : (n : ℕ) (d : Did) (ds : List Did) → running n (d ∷ ds) ≡ running (counted n d) ds
running-counted n returned ds = refl
running-counted n (paused t) ds = refl
running-counted n closed ds = refl
running-counted n served ds = refl
running-counted n freed ds = refl

-- What a round keeps.
abbrev Keeps : Loop → Loop × Did → Type 0
Keeps l (l', d) = IsBounded l' × IsShort d × (l'.conns ≡ counted l.conns d)

on_conn-Keeps : (l : Loop) (in_filter tls : Bool) → IsBounded l → Keeps l (on_conn l in_filter tls)
on_conn-Keeps l false tls h = (h, tt, refl)
on_conn-Keeps l true false h = (h, tt, refl)
on_conn-Keeps l true true h = ground arith

on_error-Keeps :
    (l : Loop) (retries lives : Bool) → IsBounded l → Keeps l (on_error l retries lives)
on_error-Keeps l false lives h = (h, tt, refl)
on_error-Keeps l true false h = (h, tt, refl)
on_error-Keeps l true true h = ((omega arith, omega arith, omega arith), (h.0, h.1), refl)

after_return-Keeps : (l : Loop) (e : Event) → IsBounded l → Keeps l (after_return l e)
after_return-Keeps l (fails e live lives) h = (h, tt, refl)
after_return-Keeps l (accepts local tls) h = (h, tt, refl)
after_return-Keeps l ends h = ((h.0, h.1, omega arith), tt, refl)

round-Keeps :
    (f : NetFilter) (is_loopback : Text → Bool) (l : Loop) (e : Event)
    → IsBounded l
    → Keeps l (round f is_loopback l e)
round-Keeps f is_loopback l (fails e live lives) h =
    on_error-Keeps l (live && retryable_accept e) lives h
round-Keeps f is_loopback l (accepts local tls) h =
    on_conn-Keeps (record l { retry = accept_retry_floor }) (serves f is_loopback local) tls
      (omega arith, omega arith, h.2)
round-Keeps f is_loopback l ends h = ((h.0, h.1, omega arith), tt, refl)

either_Keeps :
    (l : Loop) (over : Bool) (r s : Loop × Did)
    → Keeps l r
    → Keeps l s
    → Keeps l (if over then r else s)
either_Keeps l true r s h k = h
either_Keeps l false r s h k = k

serve_round-Keeps :
    (f : NetFilter) (is_loopback : Text → Bool) (l : Loop) (e : Event)
    → IsBounded l
    → Keeps l (serve_round f is_loopback l e)
unfolding serve_round
serve_round-Keeps f is_loopback l e h =
    either_Keeps l l.stopped (after_return l e) (round f is_loopback l e) (after_return-Keeps l e h)
      (round-Keeps f is_loopback l e h)

-- Whatever Accept returns and whenever handshakes end, every pause before a retry is between 5 ms and a
-- second, the handshakes that run are those that were served and have not ended, and there are at most
-- 256 of them.
pub serve_data-IsBounded :
    (f : NetFilter) (is_loopback : Text → Bool) (l : Loop) (es : List Event)
    → IsBounded l
    → IsBounded (serve_data f is_loopback l es).0
      × All IsShort (serve_data f is_loopback l es).1
      × ((serve_data f is_loopback l es).0.conns
          ≡ running l.conns (serve_data f is_loopback l es).1)
unfolding serve_data
serve_data-IsBounded f is_loopback l [] h = (h, tt, refl)
serve_data-IsBounded f is_loopback l (e ∷ es) h =
    let (bound, short, count) = serve_round-Keeps f is_loopback l e h in
    let (bound', short', count') =
      serve_data-IsBounded f is_loopback (serve_round f is_loopback l e).0 es bound in
    (
      bound',
      (short, short'),
      count'
          ∙ ap (λ n. running n (serve_data f is_loopback (serve_round f is_loopback l e).0 es).1)
              count
          ∙ sym (
              running-counted l.conns (serve_round f is_loopback l e).1
                (serve_data f is_loopback (serve_round f is_loopback l e).0 es).1),
    )
