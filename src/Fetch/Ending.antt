-- ===== src/Fetch/Ending.antt =====
-- Every run of `fetch` (fetch.go) ends, with an answer.
use tp.Prelude.{
  ℕ, suc, ◌+◌, ◌*◌, ◌≤◌, ◌<◌, ◌≡◌, refl, ◌≢◌, ◌⊎◌, inl, inr, Option-cases, List, [], ◌∷◌, ◌++◌,
  Bool, true, false, Option, none, some, arith, length, length-append, ap,
}
use tp.Fetch.{
  Candidate, Outcome, fetched, mismatch, failed, Answer, Pool, new_pool, on_result, Step, starts,
  gives_up, finishes, receives, closes, expires, Run, begins, goes, fan_out, insert_ranked,
  sort_ranked,
}

length-insert_ranked :
    (c : Candidate) (cs : List Candidate) → length (insert_ranked c cs) ≡ suc (length cs)
unfolding insert_ranked
length-insert_ranked c [] = refl
length-insert_ranked c (d ∷ cs) = ground (arith, length-insert_ranked c cs)

pub length-sort_ranked : (cs : List Candidate) → length (sort_ranked cs) ≡ length cs
unfolding sort_ranked
length-sort_ranked [] = refl
length-sort_ranked (c ∷ cs) =
    omega (arith, length-insert_ranked c (sort_ranked cs), length-sort_ranked cs)

pub length-remove {ℓ} :
    {A : Type ℓ} (xs front back : List A) (x : A)
    → xs ≡ front ++ (x ∷ back)
    → length xs ≡ suc (length (front ++ back))
length-remove xs front back x e =
    omega (arith, ap length e, length-append front (x ∷ back), length-append front back)

abbrev left_open : Option Answer → ℕ
left_open none = 1
left_open (some a) = 0

abbrev not_cancelled : Bool → ℕ
not_cancelled true = 0
not_cancelled false = 1

-- Steps that are still possible at most.
abbrev work : Pool → ℕ
work s =
    3 * length s.waiting
    + 2 * length s.active
    + length s.results
    + left_open s.answer
    + not_cancelled s.cancelled

work-on_result : (o : Outcome) (s : Pool) → s.answer ≡ none → work (on_result o s) ≤ work s
work-on_result (fetched b) s e = ground arith
work-on_result (mismatch m) s e = omega arith
work-on_result failed s e = omega arith

Step-work : (limit : ℕ) (s t : Pool) → Step limit s t → work t < work s
Step-work limit s t (starts front back c e room) =
    omega (arith, length-remove s.waiting front back c e)
Step-work limit s t (gives_up front back c e done) =
    omega (arith, length-remove s.waiting front back c e)
Step-work limit s t (finishes front back c o e) =
    omega (arith, length-remove s.active front back c e, length-append s.results ((c, o) ∷ []))
Step-work limit s t (receives c o rest e open') = omega (
  arith,
  ap length e,
  work-on_result o (record s { results = rest; seen = s.seen ++ ((c, o) ∷ []) }) open',
)
Step-work limit s t (closes w a r open') = ground arith
Step-work limit s t (expires e) = ground arith

Run-work :
    (cands : List Candidate) (k : ℕ) (s : Pool) → Run cands k s → k + work s ≤ 3 * length cands + 2
Run-work cands k s begins = unfold new_pool in omega (arith, length-sort_ranked cands)
Run-work cands k t (goes {k = j} {s} r st) =
    omega (arith, Run-work cands j s r, Step-work (fan_out (length cands)) s t st)

pub fan_out-positive : (n : ℕ) → 0 < fan_out n
unfolding fan_out
fan_out-positive n = omega arith

List-cases {ℓ} :
    {A : Type ℓ} (xs : List A) → (xs ≡ []) ⊎ ((x : A) × (rest : List A) × (xs ≡ x ∷ rest))
List-cases [] = inl refl
List-cases (x ∷ rest) = inr (x, rest, refl)

-- A state without an answer has a step that does not depend on the caller's context.
can-Step : (limit : ℕ) (s : Pool) → 0 < limit → s.answer ≡ none → (t : Pool) × Step limit s t
can-Step limit s h e = elim (List-cases s.results) [
  | inr ((c, o), rest, r) ↦ (_, receives c o rest r e)
  | inl r ↦ elim (List-cases s.active) [
    | inr (c, cs, a) ↦ (_, finishes [] cs c failed a)
    | inl a ↦ elim (List-cases s.waiting) [
      | inr (c, cs, w) ↦ (_, starts [] cs c w (omega (arith, ap length a)))
      | inl w ↦ (_, closes w a r e)
    ]
  ]
]

-- Whatever the scheduler and the peers do, a run of `fetch` over n candidates takes at most 3n + 2 steps,
-- and it cannot stop without an answer: while there is none, a goroutine or the receiving loop can
-- take a step, if every attempt that was started comes to an end.
pub fetch_ends :
    (cands : List Candidate) (k : ℕ) (s : Pool)
    → Run cands k s
    → (k ≤ 3 * length cands + 2)
      × ((s.answer ≢ none) ⊎ ((t : Pool) × Step (fan_out (length cands)) s t))
fetch_ends cands k s r = (
  omega (arith, Run-work cands k s r),
  elim (Option-cases s.answer) [
    | inl open' ↦ inr (can-Step (fan_out (length cands)) s (fan_out-positive (length cands)) open')
    | inr (a, given) ↦ inl (λ e. cc)
  ],
)
