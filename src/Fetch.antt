-- ===== src/Fetch.antt =====
-- fetch.go: `fetch` tries the candidates concurrently. Its goroutines, the semaphore and the channel of
-- results are a state with a step relation, so that every order of the scheduler is a run.
use tp.Prelude.{
  ℕ, zero, suc, ◌+◌, ◌/◌, ◌<◌, ◌≡◌, List, [], ◌∷◌, ◌++◌, Bool, true, false, Option, none, some, leb,
  min, max, if◌then◌else◌, length,
}
use tp.Prelude.Text.{Text, text_eq}
use tp.Pins.{Pin}
pub mod Counts
pub mod Answers
pub mod Ending
pub mod Asking
pub mod Settling
mod Runs

abbrev pub min_fan_out : ℕ
min_fan_out = 8

abbrev pub max_fan_out : ℕ
max_fan_out = 64

unfoldable pub fan_out : ℕ → ℕ
fan_out candidates = min max_fan_out (max min_fan_out (candidates / 4))

pub record Candidate : Type 0 where
  pub host_id : Text
  pub hostname : Text
  pub addr : Text
  pub pin : Option Pin

-- `pinMismatchError`
pub record PinMismatch : Type 0 where
  pub host_id : Text
  pub got : Text
  pub want : Text

-- What `fetchFrom` returns: a payload, a pin mismatch, or any other error.
pub data Outcome : Type 0 where
  fetched : List ℕ → Outcome
  mismatch : PinMismatch → Outcome
  failed : Outcome

abbrev rank_of : Option Pin → ℕ
rank_of none = 1
rank_of (some p) = 0

abbrev pub rank : Candidate → ℕ
rank c = rank_of c.pin

-- `slices.SortStableFunc` by rank.
unfoldable pub insert_ranked : Candidate → List Candidate → List Candidate
insert_ranked c [] = c ∷ []
insert_ranked c (d ∷ ds) =
    let rest = insert_ranked c ds in if leb (rank c) (rank d) then c ∷ d ∷ ds else d ∷ rest

unfoldable pub sort_ranked : List Candidate → List Candidate
unfolding insert_ranked
sort_ranked [] = []
sort_ranked (c ∷ cs) = insert_ranked c (sort_ranked cs)

-- What `fetch` returns.
pub data Answer : Type 0 where
  body : List ℕ → Answer
  pin_mismatch : PinMismatch → Answer
  no_match : Answer

-- The goroutines that wait at the select, those in `fetchFrom` with a slot of the semaphore, the channel
-- of results, and the loop that receives: its `pinErr` and what `fetch` returned. `gone` lists the
-- goroutines that left at `ctx.Done`; `seen` lists what was received.
pub record Pool : Type 0 where
  pub waiting : List Candidate
  pub active : List Candidate
  pub results : List (Candidate × Outcome)
  pub gone : List Candidate
  pub seen : List (Candidate × Outcome)
  pub pin_err : Option PinMismatch
  pub cancelled : Bool
  pub answer : Option Answer

unfoldable pub new_pool : List Candidate → Pool
new_pool cands = record {
  waiting = sort_ranked cands;
  active = [];
  results = [];
  gone = [];
  seen = [];
  pin_err = none;
  cancelled = false;
  answer = none;
}

-- The body of the loop over the results; a return cancels the context.
abbrev pub on_result : Outcome → Pool → Pool
on_result (fetched b) s = record s { answer = some (body b); cancelled = true }
on_result (mismatch m) s = record s { pin_err = some m }
on_result failed s = s

-- What `fetch` returns once the channel is closed.
abbrev pub verdict : Option PinMismatch → Answer
verdict none = no_match
verdict (some m) = pin_mismatch m

-- One step of a goroutine, of the loop, or of the caller's context. Which goroutine gets a free slot is
-- the scheduler's choice, and where a slot is free and the context is done, so is the branch of select.
pub data Step (limit : ℕ) (s : Pool) : Pool → Type 0 where
  starts :
      (front back : List Candidate) (c : Candidate)
      → s.waiting ≡ front ++ (c ∷ back)
      → length s.active < limit
      → Step limit s (record s { waiting = front ++ back; active = c ∷ s.active })
  gives_up :
      (front back : List Candidate) (c : Candidate)
      → s.waiting ≡ front ++ (c ∷ back)
      → s.cancelled ≡ true
      → Step limit s (record s { waiting = front ++ back; gone = c ∷ s.gone })
  finishes :
      (front back : List Candidate) (c : Candidate) (o : Outcome)
      → s.active ≡ front ++ (c ∷ back)
      → Step limit s (record s { active = front ++ back; results = s.results ++ ((c, o) ∷ []) })
  receives :
      (c : Candidate) (o : Outcome) (rest : List (Candidate × Outcome))
      → s.results ≡ (c, o) ∷ rest
      → s.answer ≡ none
      → Step limit s (on_result o (record s { results = rest; seen = s.seen ++ ((c, o) ∷ []) }))
  closes :
      s.waiting ≡ []
      → s.active ≡ []
      → s.results ≡ []
      → s.answer ≡ none
      → Step limit s (record s { answer = some (verdict s.pin_err) })
  expires : s.cancelled ≡ false → Step limit s (record s { cancelled = true })

-- A run of `fetch` with its number of steps.
pub data Run (cands : List Candidate) : ℕ → Pool → Type 0 where
  begins : Run cands zero (new_pool cands)
  goes :
      {k : ℕ} {s t : Pool} → Run cands k s → Step (fan_out (length cands)) s t → Run cands (suc k) t
