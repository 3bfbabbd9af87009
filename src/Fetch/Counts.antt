-- ===== src/Fetch/Counts.antt =====
-- How many candidates of fetch.go's `fetch` pass a test, in the parts of its state.
use tp.Prelude.{ℕ, suc, Bool, true, ◌+◌, ◌≡◌, refl, List, [], ◌∷◌, ◌++◌, false, arith, ap, ◌∙◌}
use tp.Fetch.{insert_ranked, sort_ranked, Candidate, Outcome, Pool}

abbrev count_rest : Bool → ℕ → ℕ
count_rest true n = suc n
count_rest false n = n

-- How many elements of a list pass a test.
abbrev pub count : (Candidate → Bool) → List Candidate → ℕ
count test [] = 0
count test (c ∷ cs) = count_rest (test c) (count test cs)

abbrev pub count_results : (Candidate → Bool) → List (Candidate × Outcome) → ℕ
count_results test [] = 0
count_results test ((c, o) ∷ rs) = count_rest (test c) (count_results test rs)

-- The candidates that pass a test, wherever they are in the pool.
abbrev pub count_pool : (Candidate → Bool) → Pool → ℕ
count_pool test s =
    count test s.waiting
    + count test s.active
    + count_results test s.results
    + count test s.gone
    + count_results test s.seen

pub count-append :
    (test : Candidate → Bool) (xs ys : List Candidate)
    → count test (xs ++ ys) ≡ count test xs + count test ys
count-append test [] ys = omega arith
count-append test (x ∷ xs) ys = ground (arith, count-append test xs ys)

pub count_results-append :
    (test : Candidate → Bool) (xs ys : List (Candidate × Outcome))
    → count_results test (xs ++ ys) ≡ count_results test xs + count_results test ys
count_results-append test [] ys = omega arith
count_results-append test ((c, o) ∷ xs) ys = ground (arith, count_results-append test xs ys)

pub count-remove :
    (test : Candidate → Bool) (xs front back : List Candidate) (x : Candidate)
    → xs ≡ front ++ (x ∷ back)
    → count test xs ≡ count_rest (test x) (count test (front ++ back))
count-remove test xs front back x e =
    ground
      (arith, ap (count test) e, count-append test front (x ∷ back), count-append test front back)

count-insert_ranked :
    (test : Candidate → Bool) (c : Candidate) (cs : List Candidate)
    → count test (insert_ranked c cs) ≡ count_rest (test c) (count test cs)
unfolding insert_ranked
count-insert_ranked test c [] = refl
count-insert_ranked test c (d ∷ ds) = ground (arith, count-insert_ranked test c ds)

pub count-sort_ranked :
    (test : Candidate → Bool) (cs : List Candidate) → count test (sort_ranked cs) ≡ count test cs
unfolding sort_ranked
count-sort_ranked test [] = refl
count-sort_ranked test (c ∷ cs) =
    count-insert_ranked test c (sort_ranked cs)
    ∙ ap (count_rest (test c)) (count-sort_ranked test cs)
