-- ===== src/Store/Invariant.antt =====
-- What every method of store.go keeps: keys, capacity and the state of each paste.
use tp.Prelude.{
  ℕ, ◌≤◌, ◌<◌, ◌≡◌, refl, ◌⊎◌, inl, inr, List, [], ◌∷◌, true, false, not, some, arith, leb, length,
  Option-cases, Bool-cases, ◌||◌, ◌∙◌, ap, sym,
}
use tp.Prelude.Text.{Text}
use tp.Prelude.Maps.{
  lookup, has_key, Distinct, Entries, insert-Distinct, delete-Distinct, keep_if-Distinct,
  length-insert, length-delete-le, length-keep_if-le, Entries-lookup, insert-Entries,
  delete-Entries, keep_if-Entries,
}
use tp.Store.{
  Store, Paste, add, take, del, clear, sweep, paste_key, after_take, max_pastes, new_store,
  is_expired, take_found,
}
use tp.Store.History.{Op, posts, takes, dels, clears, sweeps, new_paste, after_add, step, run}

-- A stored paste is whole and has gets left, or its gets are used up and the payload is gone.
abbrev pub IsIntact : Paste → Type 0
IsIntact p =
    ((p.burned ≡ false) × (length p.body ≡ p.size) × ((p.max_gets ≡ 0) ⊎ (p.gets < p.max_gets)))
    ⊎ ((p.burned ≡ true) × (p.body ≡ []) × (0 < p.max_gets) × (p.gets ≡ p.max_gets))

abbrev pub IsEntry : Text → Paste → Type 0
IsEntry k p = (k ≡ paste_key p.prs) × IsIntact p

pub record IsValid (s : Store) : Type 0 where
  pub distinct : Distinct s.m
  pub entries : Entries IsEntry s.m
  pub bounded : length s.m ≤ max_pastes

pub after_take-IsIntact : (p : Paste) → IsIntact p → p.burned ≡ false → IsIntact (after_take p)
unfolding after_take
after_take-IsIntact p h e = ground arith

pub after_take-prs : (p : Paste) → (after_take p).prs ≡ p.prs
unfolding after_take
after_take-prs p = ground arith

pub new_paste-IsIntact :
    (l : Text) (e n : ℕ) (prs body : List ℕ) → IsIntact (new_paste l e n prs body)
unfolding new_paste
new_paste-IsIntact l e n prs body = ground arith

add-IsValid : (s : Store) (p : Paste) → IsIntact p → IsValid s → IsValid (after_add s (add s p))
unfolding add
add-IsValid s p i v = elim (Bool-cases (leb max_pastes (length s.m))) [
  | inl full ↦ rw full v
  | inr room ↦ rw room (elim (Option-cases (lookup (paste_key p.prs) s.m)) [
    | inl fresh ↦
        rw (fresh, has_key, after_add)
          (record {
            distinct = insert-Distinct (paste_key p.prs) p s.m v.distinct;
            entries = insert-Entries IsEntry (paste_key p.prs) p s.m v.entries (refl, i);
            bounded = ground (arith, length-insert (paste_key p.prs) p s.m);
          })
    | inr (q, taken) ↦ rw (taken, has_key, after_add) v
  ])
]

take-IsValid : (s : Store) (prs : List ℕ) (now : ℕ) → IsValid s → IsValid (take s prs now).0
unfolding take
take-IsValid s prs now v = elim (Option-cases (lookup (paste_key prs) s.m)) [
  | inl e ↦ rw e v
  | inr (p, e) ↦ rw e (served_or_not p e)
]
  where
    k : Text
    k = paste_key prs

    served_or_not : (p : Paste) → lookup k s.m ≡ some p → IsValid (take_found s k now (some p)).0
    served_or_not p e = elim (Bool-cases (p.burned || is_expired now p)) [
      | inl refused ↦ rw refused v
      | inr live ↦ rw live (record {
        distinct = insert-Distinct k (after_take p) s.m v.distinct;
        entries = insert-Entries IsEntry k (after_take p) s.m v.entries (
          entry.0 ∙ ap paste_key (sym (after_take-prs p)),
          after_take-IsIntact p entry.1 (ground arith),
        );
        bounded = ground (arith, v.bounded, length-insert k (after_take p) s.m);
      })
    ]
      where
        entry : IsEntry k p
        entry = Entries-lookup IsEntry k p s.m v.entries e

del-IsValid : (s : Store) (prs : List ℕ) → IsValid s → IsValid (del s prs).0
unfolding del
del-IsValid s prs v = elim (Option-cases (lookup (paste_key prs) s.m)) [
  | inl e ↦ rw e v
  | inr (p, e) ↦ rw e (record {
    distinct = delete-Distinct (paste_key prs) s.m v.distinct;
    entries = delete-Entries IsEntry (paste_key prs) s.m v.entries;
    bounded = omega (arith, v.bounded, length-delete-le (paste_key prs) s.m);
  })
]

sweep-IsValid : (s : Store) (now : ℕ) → IsValid s → IsValid (sweep s now)
unfolding sweep
sweep-IsValid s now v = record {
  distinct = keep_if-Distinct (λ p. not (is_expired now p)) s.m v.distinct;
  entries = keep_if-Entries IsEntry (λ p. not (is_expired now p)) s.m v.entries;
  bounded = omega (arith, v.bounded, length-keep_if-le (λ (p : Paste). not (is_expired now p)) s.m);
}

-- Every operation keeps a store valid: its keys are distinct and are the keys of the stored
-- secrets, there are at most 256 pastes, and each is either whole with gets left or burnt with its
-- payload cleared after exactly MaxGets fetches.
pub step-IsValid : (s : Store) (o : Op) → IsValid s → IsValid (step s o)
unfolding step clear
step-IsValid s (posts l e n prs body) v =
    add-IsValid s (new_paste l e n prs body) (new_paste-IsIntact l e n prs body) v
step-IsValid s (takes prs now) v = take-IsValid s prs now v
step-IsValid s (dels prs) v = del-IsValid s prs v
step-IsValid s clears v = record { distinct = tt; entries = tt; bounded = omega arith }
step-IsValid s (sweeps now) v = sweep-IsValid s now v

pub run-IsValid : (s : Store) (os : List Op) → IsValid s → IsValid (run s os)
unfolding run
run-IsValid s [] v = v
run-IsValid s (o ∷ os) v = run-IsValid (step s o) os (step-IsValid s o v)

pub new_store-IsValid : (decoy : List ℕ) → IsValid (new_store decoy)
unfolding new_store
new_store-IsValid decoy = record { distinct = tt; entries = tt; bounded = omega arith }

-- The store that `newStore` makes is valid after any history of operations.
pub run-new_store-IsValid : (decoy : List ℕ) (os : List Op) → IsValid (run (new_store decoy) os)
run-new_store-IsValid decoy os = run-IsValid (new_store decoy) os (new_store-IsValid decoy)
