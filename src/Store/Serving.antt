-- ===== src/Store/Serving.antt =====
-- What `take` of store.go hands out, and how often.
use tp.Prelude.{
  ℕ, suc, ◌+◌, ◌-◌, ◌≤◌, ◌<◌, ◌≡◌, refl, ◌≢◌, inl, inr, List, [], ◌∷◌, ◌++◌, true, false, not,
  Option, none, some, arith, ltb, length, replicate, Option-cases, Bool-cases, ◌||◌, ap, sym, All,
  min, if◌then◌else◌, subst,
}
use tp.Prelude.Text.{Text, text_eq, text_eq_iff, text_eq_refl}
use tp.Prelude.Maps.{lookup, insert, lookup-insert, lookup-delete, lookup-keep_if, Entries-lookup}
use tp.Store.{
  Store, Paste, add, take, del, clear, sweep, paste_key, after_take, burn, is_expired, is_live,
  take_found,
}
use tp.Store.Invariant.{IsValid, IsEntry, IsIntact, step-IsValid, after_take-IsIntact}
use tp.Store.History.{
  Op, posts, takes, dels, clears, sweeps, new_paste, after_add, step, serves, served, hit,
}

pub lookup-take :
    (s : Store) (prs : List ℕ) (now : ℕ) (p : Paste)
    → lookup (paste_key prs) s.m ≡ some p
    → is_live now p ≡ true
    → (lookup (paste_key prs) (take s prs now).0.m ≡ some (after_take p))
      × ((take s prs now).1 ≡ some p.body)
unfolding take
lookup-take s prs now p e l = rw e (
  ground (
    arith,
    lookup-insert (paste_key prs) (paste_key prs) (after_take p) s.m,
    text_eq_refl (paste_key prs),
  ),
  ground arith,
)

pub take_refused :
    (s : Store) (prs : List ℕ) (now : ℕ) (p : Paste)
    → lookup (paste_key prs) s.m ≡ some p
    → is_live now p ≡ false
    → take s prs now ≡ (s, none)
unfolding take
take_refused s prs now p e l = rw e (ground arith)

-- Fetches one after the other of one secret, and what each returned.
unfoldable pub fetches : Store → List ℕ → List ℕ → List (Option (List ℕ))
fetches s prs [] = []
fetches s prs (t ∷ ts) = let (s', r) = take s prs t in r ∷ fetches s' prs ts

all_refused :
    (s : Store) (prs ts : List ℕ) (p : Paste)
    → lookup (paste_key prs) s.m ≡ some p
    → p.burned ≡ true
    → fetches s prs ts ≡ replicate (length ts) none
unfolding fetches
all_refused s prs [] p e b = refl
all_refused s prs (t ∷ ts) p e b =
    rw (take_refused s prs t p e (ground arith)) (ap (λ r. none ∷ r) (all_refused s prs ts p e b))

-- How many of `n` fetches a paste still answers.
abbrev pub turns : Paste → ℕ → ℕ
turns p n = if ltb 0 p.max_gets then min n (p.max_gets - p.gets) else n

turns_last :
    (p : Paste) (n : ℕ)
    → IsIntact p
    → p.burned ≡ false
    → (after_take p).burned ≡ true
    → turns p (suc n) ≡ 1
unfolding after_take burn
turns_last p n i b e = ground arith

turns_more :
    (p : Paste) (n : ℕ)
    → p.burned ≡ false
    → (after_take p).burned ≡ false
    → (turns p (suc n) ≡ suc (turns (after_take p) n)) × ((after_take p).body ≡ p.body)
unfolding after_take burn
turns_more p n b e = ground arith

after_take-expires_at : (p : Paste) → (after_take p).expires_at ≡ p.expires_at
unfolding after_take burn
after_take-expires_at p = ground arith

-- A whole paste is handed out to every fetch before it expires while gets are left: with MaxGets 0
-- each of the fetches returns the payload, otherwise exactly the first MaxGets - Gets of them do,
-- and the others return nothing.
pub fetches_lem :
    (s : Store) (prs ts : List ℕ) (p : Paste)
    → lookup (paste_key prs) s.m ≡ some p
    → IsIntact p
    → p.burned ≡ false
    → All (λ t. t ≤ p.expires_at) ts
    → fetches s prs ts
      ≡ replicate (turns p (length ts)) (some p.body)
        ++ replicate (length ts - turns p (length ts)) none
unfolding fetches
fetches_lem s prs [] p e i b h = ground arith
fetches_lem s prs (t ∷ ts) p e i b h =
    let (e', r) = lookup-take s prs t p e (ground arith) in
    elim (Bool-cases (after_take p).burned) [
      | inl over ↦
          rw
            (
              r,
              all_refused (take s prs t).0 prs ts (after_take p) e' over,
              turns_last p (length ts) i b over,
            )
            (ap (λ n. some p.body ∷ replicate n none) (omega arith))
      | inr more ↦
          let (n, same) = turns_more p (length ts) b more in
          rw
            (
              r,
              fetches_lem (take s prs t).0 prs ts (after_take p) e' (after_take-IsIntact p i b) more
                  (subst (λ x. All (λ t. t ≤ x) ts) (sym (after_take-expires_at p)) h.1),
              n,
              same,
            )
            (ap
              (λ n.
                some p.body ∷ replicate (turns (after_take p) (length ts)) (some p.body)
                ++ replicate n none)
              (omega arith))
    ]

-- Gets that the paste under a key has left, if it is there and has a limit.
abbrev pub left : Option Paste → ℕ
left none = 0
left (some p) = p.max_gets - p.gets

abbrev pub IsLimited : Option Paste → Type 0
IsLimited none = Unit {0}
IsLimited (some p) = 0 < p.max_gets

-- The history posts nothing under the key.
abbrev pub NoPost : Text → List Op → Type 0
NoPost k [] = Unit {0}
NoPost k (posts l e n prs body ∷ os) = (paste_key prs ≢ k) × NoPost k os
NoPost k (takes prs now ∷ os) = NoPost k os
NoPost k (dels prs ∷ os) = NoPost k os
NoPost k (clears ∷ os) = NoPost k os
NoPost k (sweeps now ∷ os) = NoPost k os

-- One step pays for what it serves with the gets that are left.
abbrev Pays : Text → Store → Op → Type 0
Pays k s o =
    IsLimited (lookup k (step s o).m)
    × (serves k s o + left (lookup k (step s o).m) ≤ left (lookup k s.m))

add-lookup_other :
    (k : Text) (s : Store) (p : Paste)
    → paste_key p.prs ≢ k
    → lookup k (after_add s (add s p)).m ≡ lookup k s.m
unfolding add
add-lookup_other k s p ne =
    ground (arith, lookup-insert (paste_key p.prs) k p s.m, text_eq_iff (paste_key p.prs) k)

post-Pays :
    (k : Text) (s : Store) (l : Text) (e n : ℕ) (prs body : List ℕ)
    → IsLimited (lookup k s.m)
    → paste_key prs ≢ k
    → Pays k s (posts l e n prs body)
unfolding step serves new_paste
post-Pays k s l e n prs body lim ne =
    rw (add-lookup_other k s (new_paste l e n prs body) ne) (lim, omega arith)

after_take_left :
    (p : Paste)
    → 0 < p.max_gets
    → IsIntact p
    → p.burned ≡ false
    → (0 < (after_take p).max_gets)
      × (1 + ((after_take p).max_gets - (after_take p).gets) ≤ p.max_gets - p.gets)
unfolding after_take burn
after_take_left p lim i b = ground arith

take_cases {ℓ} :
    (P : Store × Option (List ℕ) → Type ℓ) (s : Store) (prs : List ℕ) (now : ℕ)
    → P (s, none)
    → ((p : Paste)
        → lookup (paste_key prs) s.m ≡ some p
        → p.burned ≡ false
        → P (record s { m = insert (paste_key prs) (after_take p) s.m }, some p.body))
    → P (take s prs now)
unfolding take
take_cases P s prs now refused found = elim (Option-cases (lookup (paste_key prs) s.m)) [
  | inl e ↦ rw (e, take_found) refused
  | inr (p, e) ↦ elim (Bool-cases (p.burned || is_expired now p)) [
    | inl no_more ↦ rw (e, take_found, no_more) refused
    | inr live ↦ rw (e, take_found, live) (found p e (ground arith))
  ]
]

take-Pays :
    (k : Text) (s : Store) (prs : List ℕ) (now : ℕ)
    → IsValid s
    → IsLimited (lookup k s.m)
    → Pays k s (takes prs now)
unfolding step serves
take-Pays k s prs now v lim =
    take_cases
      (λ r.
        IsLimited (lookup k r.0.m)
        × (hit (text_eq (paste_key prs) k) r.1 + left (lookup k r.0.m) ≤ left (lookup k s.m)))
      s prs now (lim, ground arith)
      λ p e b. ground (
        arith,
        lookup-insert (paste_key prs) k (after_take p) s.m,
        text_eq_iff (paste_key prs) k,
        after_take_left p,
        (Entries-lookup IsEntry (paste_key prs) p s.m v.entries e).1,
      )

del-Pays : (k : Text) (s : Store) (prs : List ℕ) → IsLimited (lookup k s.m) → Pays k s (dels prs)
unfolding step serves del
del-Pays k s prs lim = ground (arith, lookup-delete (paste_key prs) k s.m)

sweep-Pays :
    (k : Text) (s : Store) (now : ℕ) → IsValid s → IsLimited (lookup k s.m) → Pays k s (sweeps now)
unfolding step serves sweep
sweep-Pays k s now v lim =
    ground (arith, lookup-keep_if (λ (p : Paste). not (is_expired now p)) k s.m v.distinct)

step-Pays :
    (k : Text) (s : Store) (o : Op) (os : List Op)
    → IsValid s
    → IsLimited (lookup k s.m)
    → NoPost k (o ∷ os)
    → Pays k s o × NoPost k os
unfolding serves
step-Pays k s (posts l e n prs body) os v lim np = (post-Pays k s l e n prs body lim np.0, np.1)
step-Pays k s (takes prs now) os v lim np = (take-Pays k s prs now v lim, np)
step-Pays k s (dels prs) os v lim np = (del-Pays k s prs lim, np)
step-Pays k s clears os v lim np = (unfold step clear lookup in (tt, omega arith), np)
step-Pays k s (sweeps now) os v lim np = (sweep-Pays k s now v lim, np)

-- On a valid store, a paste with a limit on its gets is handed out at most as often as it has gets
-- left, and not at all if it is absent, whatever fetches, deletions, sweeps and posts under other
-- keys follow, in any order and at any times.
pub served-le-left :
    (k : Text) (s : Store) (os : List Op)
    → IsValid s
    → IsLimited (lookup k s.m)
    → NoPost k os
    → served k s os ≤ left (lookup k s.m)
unfolding served
served-le-left k s [] v lim np = omega arith
served-le-left k s (o ∷ os) v lim np =
    let (pays, rest) = step-Pays k s o os v lim np in
    omega (arith, pays.1, served-le-left k (step s o) os (step-IsValid s o v) pays.0 rest)
