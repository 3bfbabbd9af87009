-- ===== src/Store/Deleting.antt =====
-- `del` of store.go on every key.
use tp.Prelude.{ℕ, ◌≡◌, refl, List, none, arith, Option-cases, inl, inr, if◌then◌else◌}
use tp.Prelude.Text.{Text, text_eq, text_eq_iff}
use tp.Prelude.Maps.{lookup, has_key, lookup-delete}
use tp.Store.{Store, del, del_found, paste_key}

-- `del` answers whether the paste was there, and removes it and no other.
pub del_lem :
    (s : Store) (prs : List ℕ) (k : Text)
    → ((del s prs).1 ≡ has_key (paste_key prs) s.m)
      × (lookup k (del s prs).0.m ≡ (if text_eq (paste_key prs) k then none else lookup k s.m))
unfolding del
del_lem s prs k = elim (Option-cases (lookup (paste_key prs) s.m)) [
  | inl gone ↦ (
    rw (gone, del_found, has_key) refl,
    rw (gone, del_found) (ground (arith, gone, text_eq_iff (paste_key prs) k)),
  )
  | inr (p, there) ↦ (
    rw (there, del_found, has_key) refl,
    rw (there, del_found) (lookup-delete (paste_key prs) k s.m),
  )
]
