-- ===== src/Fetch/Answers.antt =====
-- What an answer of `fetch` (fetch.go) says of the candidates.
use tp.Prelude.{
  ℕ, Bool, ◌+◌, ◌≤◌, ◌<◌, ◌≡◌, refl, List, [], ◌∷◌, ◌++◌, false, Option, none, some, arith, length,
  length-append, All, All-append, ap, ◌∙◌, sym,
}
use tp.Fetch.{
  Candidate, Outcome, fetched, mismatch, failed, PinMismatch, Answer, body, pin_mismatch, no_match,
  Pool, new_pool, on_result, verdict, Step, starts, gives_up, finishes, receives, closes, expires,
  Run, begins, goes, fan_out,
}
use tp.Fetch.Ending.{length-remove, length-sort_ranked}
use tp.Fetch.Counts.{
  count, count_results, count_pool, count_results-append, count-remove, count-sort_ranked,
}

abbrev pub IsNoBody : Outcome → Type 0
IsNoBody (fetched b) = ⊥
IsNoBody (mismatch m) = Unit {0}
IsNoBody failed = Unit {0}

-- No payload was received.
abbrev pub NoBody : List (Candidate × Outcome) → Type 0
NoBody = All (λ r. IsNoBody r.1)

-- The last pin mismatch of a list of results, or `m`.
abbrev pub last_mismatch : Option PinMismatch → List (Candidate × Outcome) → Option PinMismatch
last_mismatch m [] = m
last_mismatch m ((c, fetched b) ∷ rs) = last_mismatch m rs
last_mismatch m ((c, mismatch p) ∷ rs) = last_mismatch (some p) rs
last_mismatch m ((c, failed) ∷ rs) = last_mismatch m rs

-- What `fetch` may have returned when it has received `seen` and `gone` goroutines of n gave up.
abbrev pub Explains : ℕ → ℕ → List (Candidate × Outcome) → Option Answer → Type 0
Explains n gone seen none = NoBody seen
Explains n gone seen (some (body b)) =
    (front : List (Candidate × Outcome)) × (c : Candidate) × (seen ≡ front ++ ((c, fetched b) ∷ []))
    × NoBody front
Explains n gone seen (some (pin_mismatch m)) =
    NoBody seen × (last_mismatch none seen ≡ some m) × (length seen + gone ≡ n)
Explains n gone seen (some no_match) =
    NoBody seen × (last_mismatch none seen ≡ none) × (length seen + gone ≡ n)

-- What holds in every state of a run over these candidates.
pub record IsPool (cands : List Candidate) (limit : ℕ) (s : Pool) : Type 0 where
  pub bounded : length s.active ≤ limit
  pub counted :
      length s.waiting + length s.active + length s.results + length s.gone + length s.seen
      ≡ length cands
  pub tracked : (test : Candidate → Bool) → count_pool test s ≡ count test cands
  pub left_early : s.cancelled ≡ false → s.gone ≡ []
  pub pinned : s.pin_err ≡ last_mismatch none s.seen
  pub explained : Explains (length cands) (length s.gone) s.seen s.answer

last_mismatch-append :
    (m : Option PinMismatch) (xs ys : List (Candidate × Outcome))
    → last_mismatch m (xs ++ ys) ≡ last_mismatch (last_mismatch m xs) ys
last_mismatch-append m [] ys = refl
last_mismatch-append m ((c, fetched b) ∷ xs) ys = last_mismatch-append m xs ys
last_mismatch-append m ((c, mismatch p) ∷ xs) ys = last_mismatch-append (some p) xs ys
last_mismatch-append m ((c, failed) ∷ xs) ys = last_mismatch-append m xs ys

-- An answer other than a payload is given when no goroutine is left.
settled :
    (n gone gone' : ℕ) (seen : List (Candidate × Outcome)) (answer : Option Answer)
    → length seen + gone < n
    → Explains n gone seen answer
    → Explains n gone' seen answer
settled n gone gone' seen none h e = e
settled n gone gone' seen (some (body b)) h e = e
settled n gone gone' seen (some (pin_mismatch m)) h (a, b, c) = absurd (omega arith)
settled n gone gone' seen (some no_match) h (a, b, c) = absurd (omega arith)

open_answer :
    (n gone : ℕ) (seen : List (Candidate × Outcome)) (answer : Option Answer)
    → answer ≡ none
    → Explains n gone seen answer
    → NoBody seen
open_answer n gone seen none e h = h
open_answer n gone seen (some a) e h = absurd (cc)

-- A result without a payload leaves an open answer open.
still_open :
    (n gone : ℕ) (seen : List (Candidate × Outcome)) (c : Candidate) (o : Outcome)
    (answer : Option Answer)
    → answer ≡ none
    → IsNoBody o
    → Explains n gone seen answer
    → Explains n gone (seen ++ ((c, o) ∷ [])) answer
still_open n gone seen c o none e no_body h =
    All-append (λ r. IsNoBody r.1) seen ((c, o) ∷ []) h (no_body, tt)
still_open n gone seen c o (some a) e no_body h = absurd (cc)

received_count :
    (test : Candidate → Bool) (s : Pool) (c : Candidate) (o : Outcome)
    (rest : List (Candidate × Outcome)) {n : ℕ}
    → s.results ≡ (c, o) ∷ rest
    → count_pool test s ≡ n
    → count test s.waiting
        + count test s.active
        + count_results test rest
        + count test s.gone
        + count_results test (s.seen ++ ((c, o) ∷ []))
      ≡ n
received_count test s c o rest e h =
    ground (arith, h, ap (count_results test) e, count_results-append test s.seen ((c, o) ∷ []))

received :
    (cands : List Candidate) (limit : ℕ) (s : Pool) (c : Candidate) (o : Outcome)
    (rest : List (Candidate × Outcome))
    → s.results ≡ (c, o) ∷ rest
    → s.answer ≡ none
    → IsPool cands limit s
    → IsPool cands limit (on_result o (record s { results = rest; seen = s.seen ++ ((c, o) ∷ []) }))
received cands limit s c (fetched b) rest e open' p = record {
  tracked = λ test. received_count test s c (fetched b) rest e (p.tracked test);
  bounded = p.bounded;
  counted = omega (arith, p.counted, ap length e, length-append s.seen ((c, fetched b) ∷ []));
  left_early = λ q. absurd (cc);
  pinned = p.pinned ∙ sym (last_mismatch-append none s.seen ((c, fetched b) ∷ []));
  explained = (
    s.seen,
    c,
    refl,
    open_answer (length cands) (length s.gone) s.seen s.answer open' p.explained,
  );
}
received cands limit s c (mismatch m) rest e open' p = record {
  tracked = λ test. received_count test s c (mismatch m) rest e (p.tracked test);
  bounded = p.bounded;
  counted = omega (arith, p.counted, ap length e, length-append s.seen ((c, mismatch m) ∷ []));
  left_early = p.left_early;
  pinned = sym (last_mismatch-append none s.seen ((c, mismatch m) ∷ []));
  explained =
      still_open (length cands) (length s.gone) s.seen c (mismatch m) s.answer open' tt p.explained;
}
received cands limit s c failed rest e open' p = record {
  tracked = λ test. received_count test s c failed rest e (p.tracked test);
  bounded = p.bounded;
  counted = omega (arith, p.counted, ap length e, length-append s.seen ((c, failed) ∷ []));
  left_early = p.left_early;
  pinned = p.pinned ∙ sym (last_mismatch-append none s.seen ((c, failed) ∷ []));
  explained =
      still_open (length cands) (length s.gone) s.seen c failed s.answer open' tt p.explained;
}

closed_answer :
    (n gone : ℕ) (seen : List (Candidate × Outcome)) (m : Option PinMismatch)
    → NoBody seen
    → m ≡ last_mismatch none seen
    → length seen + gone ≡ n
    → Explains n gone seen (some (verdict m))
closed_answer n gone seen none h e c = (h, sym e, c)
closed_answer n gone seen (some m) h e c = (h, sym e, c)

Step-IsPool :
    (cands : List Candidate) (limit : ℕ) (s t : Pool)
    → Step limit s t
    → IsPool cands limit s
    → IsPool cands limit t
Step-IsPool cands limit s t (starts front back c e room) p = record {
  tracked = λ test. ground (arith, p.tracked test, count-remove test s.waiting front back c e);
  bounded = omega arith;
  counted = omega (arith, p.counted, length-remove s.waiting front back c e);
  left_early = p.left_early;
  pinned = p.pinned;
  explained = p.explained;
}
Step-IsPool cands limit s t (gives_up front back c e done) p = record {
  tracked = λ test. ground (arith, p.tracked test, count-remove test s.waiting front back c e);
  bounded = p.bounded;
  counted = omega (arith, p.counted, length-remove s.waiting front back c e);
  left_early = λ q. absurd (cc);
  pinned = p.pinned;
  explained =
      settled (length cands) (length s.gone) (length (c ∷ s.gone)) s.seen s.answer
        (omega (arith, p.counted, length-remove s.waiting front back c e)) p.explained;
}
Step-IsPool cands limit s t (finishes front back c o e) p = record {
  tracked = λ test. ground (
    arith,
    p.tracked test,
    count-remove test s.active front back c e,
    count_results-append test s.results ((c, o) ∷ []),
  );
  bounded = omega (arith, p.bounded, length-remove s.active front back c e);
  counted = omega (
    arith,
    p.counted,
    length-remove s.active front back c e,
    length-append s.results ((c, o) ∷ []),
  );
  left_early = p.left_early;
  pinned = p.pinned;
  explained = p.explained;
}
Step-IsPool cands limit s t (receives c o rest e open') p =
    received cands limit s c o rest e open' p
Step-IsPool cands limit s t (closes w a r open') p = record {
  tracked = λ test. p.tracked test;
  bounded = p.bounded;
  counted = p.counted;
  left_early = p.left_early;
  pinned = p.pinned;
  explained =
      closed_answer (length cands) (length s.gone) s.seen s.pin_err
        (open_answer (length cands) (length s.gone) s.seen s.answer open' p.explained) p.pinned
        (omega (arith, p.counted, ap length w, ap length a, ap length r));
}
Step-IsPool cands limit s t (expires e) p = record {
  tracked = λ test. p.tracked test;
  bounded = p.bounded;
  counted = p.counted;
  left_early = λ q. absurd (cc);
  pinned = p.pinned;
  explained = p.explained;
}

-- In every state of a run of `fetch`, at most fan_out attempts are under way and no
-- candidate is lost or tried twice: those that wait, are being tried, have a result that waits or was
-- received, or gave up (which none does while the context lasts) are together the candidates of the
-- call, each as often as it was given. A payload that `fetch` returns is the last result
-- received, the first one without an error; any other answer is given after the results of all
-- candidates that did not give up, none of them a payload, and it is the last pin mismatch if there
-- was one and errNoMatch if not.
pub Run-IsPool :
    (cands : List Candidate) (k : ℕ) (s : Pool)
    → Run cands k s
    → IsPool cands (fan_out (length cands)) s
Run-IsPool cands k s begins =
    unfold new_pool in
    record {
      bounded = omega arith;
      counted = omega (arith, length-sort_ranked cands);
      tracked = λ test. omega (arith, count-sort_ranked test cands);
      left_early = λ q. refl;
      pinned = refl;
      explained = tt;
    }
Run-IsPool cands k t (goes {k = j} {s} r st) =
    Step-IsPool cands (fan_out (length cands)) s t st (Run-IsPool cands j s r)
