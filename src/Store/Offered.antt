-- ===== src/Store/Offered.antt =====
-- Which secrets an offer lists, against what a fetch at the same time returns (store.go).
use tp.Prelude.{
  ℕ, ◌<◌, ◌≡◌, ◌≢◌, inl, inr, ◌&&◌, List, [], ◌∷◌, true, none, some, arith, Option-cases,
  Bool-cases, ap, All, ◌↔◌,
}
use tp.Prelude.Text.{Text, text_eq, text_eq_iff, text_eq_refl, IsByte}
use tp.Prelude.Maps.{lookup, Distinct, Entries, Entries-lookup, values}
use tp.Hex.{hex_encode-injective}
use tp.Random.Counts.{IsFair, count}
use tp.Store.{Store, Paste, take, paste_key, is_live, candidates, live_secrets}
use tp.Store.Invariant.{IsValid, IsEntry}
use tp.Store.Offers.{candidates_lem, occurs}
use tp.Store.Serving.{lookup-take, take_refused}

occurs-lookup :
    (x : List ℕ) (now : ℕ) (m : List (Text × Paste))
    → Distinct m
    → Entries IsEntry m
    → 0 < occurs x (live_secrets now (values m))
    → (p : Paste) × (lookup (paste_key x) m ≡ some p) × (is_live now p ≡ true)
unfolding live_secrets count lookup
occurs-lookup x now [] d h c = absurd (omega arith)
occurs-lookup x now ((k, p) ∷ m) d h c = elim (Bool-cases (is_live now p && text_eq p.prs x)) [
  | inl here ↦
      (p, ground (arith, h.0.0, text_eq_iff p.prs x, text_eq_iff k (paste_key x)), ground arith)
  | inr other ↦
      let (q, e, l) = occurs-lookup x now m d.1 h.1 (ground arith) in
      (q, ground (arith, e, d.0, text_eq_iff k (paste_key x)), l)
]

lookup-occurs :
    (k : Text) (now : ℕ) (m : List (Text × Paste)) (p : Paste)
    → lookup k m ≡ some p
    → is_live now p ≡ true
    → 0 < occurs p.prs (live_secrets now (values m))
unfolding live_secrets count lookup
lookup-occurs k now [] p e l = absurd (cc)
lookup-occurs k now ((j, q) ∷ m) p e l = ground (arith, text_eq_refl p.prs, lookup-occurs k now m p)

-- On a valid store of byte strings, a secret other than the decoy is listed in an offer exactly
-- when a fetch with it at that time hands out a payload.
pub offered_iff-take :
    (s : Store) (now : ℕ) (pick : ℕ → ℕ) (x : List ℕ)
    → IsValid s
    → IsFair pick
    → Entries (λ k p. All IsByte p.prs) s.m
    → All IsByte x
    → x ≢ s.decoy
    → (0 < occurs x (candidates s now pick)) ↔ ((take s x now).1 ≢ none)
offered_iff-take s now pick x v f bytes bx nd = (serve, offer)
  where
    same : occurs x (candidates s now pick) ≡ occurs x (live_secrets now (values s.m))
    same = ground (arith, (candidates_lem s now pick x v f).0, text_eq_iff s.decoy x)

    serve : 0 < occurs x (candidates s now pick) → (take s x now).1 ≢ none
    serve c n =
        let (p, e, l) = occurs-lookup x now s.m v.distinct v.entries (omega (arith, same)) in
        cc ((lookup-take s x now p e l).1)

    offer : (take s x now).1 ≢ none → 0 < occurs x (candidates s now pick)
    offer n = elim (Option-cases (lookup (paste_key x) s.m)) [
      | inl e ↦ absurd (n (unfold take in rw e))
      | inr (p, e) ↦ elim (Bool-cases (is_live now p)) [
        | inl l ↦
            let found : 0 < occurs p.prs (live_secrets now (values s.m)) =
              lookup-occurs (paste_key x) now s.m p e l in
            let eq : x ≡ p.prs =
              unfold paste_key in
              hex_encode-injective x p.prs bx
                (Entries-lookup (λ k q. All IsByte q.prs) (paste_key x) p s.m bytes e)
                (Entries-lookup IsEntry (paste_key x) p s.m v.entries e).0 in
            rw same (rw eq found)
        | inr dead ↦ absurd (n (ap (λ r. r.1) (take_refused s x now p e dead)))
      ]
    ]
