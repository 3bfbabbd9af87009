-- ===== src/Prelude/Maps.antt =====
-- Go's maps with string keys, as association lists.
use tp.Prelude.Tests.{if◌then◌else◌, Bool-cases}
use tp.Prelude.Lists.{length}
use tp.Prelude.Text.{Text, text_eq, text_eq_iff}
use Prim.Native.Nat.{suc, ◌≤◌}
use mathlib.Core.List.{List, [], ◌∷◌}
use mathlib.Core.Path.{◌≡◌, refl, sym, subst}
use mathlib.Core.Logic.{inl, inr}
use mathlib.Core.Bool.{Bool, true, false}
use mathlib.Core.Option.{Option, none, some}
use native.Mathlib.Omega.{arith}

module _ {ℓ} {V : Type ℓ} where
  unfoldable pub lookup : Text → List (Text × V) → Option V
  lookup k [] = none
  lookup k ((j, v) ∷ m) = if text_eq j k then some v else lookup k m

  -- `m[k] = v`; a key that is there keeps its place.
  unfoldable pub insert : Text → V → List (Text × V) → List (Text × V)
  insert key new [] = (key, new) ∷ []
  insert key new ((other, old) ∷ rest) =
      let after = insert key new rest in
      if text_eq other key then (other, new) ∷ rest else (other, old) ∷ after

  -- `delete(m, k)`.
  unfoldable pub delete : Text → List (Text × V) → List (Text × V)
  delete k [] = []
  delete k ((j, w) ∷ m) = if text_eq j k then delete k m else (j, w) ∷ delete k m

  -- A range over the map that deletes every entry that fails the test.
  unfoldable pub keep_if : (V → Bool) → List (Text × V) → List (Text × V)
  keep_if p [] = []
  keep_if p ((j, w) ∷ m) = if p w then (j, w) ∷ keep_if p m else keep_if p m

  abbrev pub has_key : Text → List (Text × V) → Bool
  has_key k m = elim (lookup k m) [ none ↦ false | some v ↦ true ]

  abbrev pub values : List (Text × V) → List V
  values [] = []
  values ((k, v) ∷ m) = v ∷ values m

  -- No key occurs twice.
  abbrev pub Distinct : List (Text × V) → Type ℓ
  Distinct [] = Unit {ℓ}
  Distinct ((k, v) ∷ m) = (lookup k m ≡ none) × Distinct m

  -- Every entry satisfies the predicate.
  abbrev pub Entries {κ} : (Text → V → Type κ) → List (Text × V) → Type κ
  Entries P [] = Unit {κ}
  Entries P ((k, v) ∷ m) = P k v × Entries P m

module _ {ℓ} {V : Type ℓ} where
  pub lookup-insert :
      (key asked : Text) (new : V) (entries : List (Text × V))
      → lookup asked (insert key new entries)
        ≡ (if text_eq key asked then some new else lookup asked entries)
  unfolding lookup insert
  lookup-insert key asked new [] = refl
  lookup-insert key asked new ((other, old) ∷ rest) = ground (
    arith,
    lookup-insert key asked new rest,
    text_eq_iff key asked,
    text_eq_iff other key,
    text_eq_iff other asked,
  )

  pub lookup-delete :
      (k j : Text) (m : List (Text × V))
      → lookup j (delete k m) ≡ (if text_eq k j then none else lookup j m)
  unfolding lookup delete
  lookup-delete k j [] = ground arith
  lookup-delete k j ((i, w) ∷ m) =
      ground (arith, text_eq_iff k j, text_eq_iff i k, text_eq_iff i j, lookup-delete k j m)

  pub lookup-keep_if-none :
      (p : V → Bool) (k : Text) (m : List (Text × V))
      → lookup k m ≡ none
      → lookup k (keep_if p m) ≡ none
  unfolding lookup keep_if
  lookup-keep_if-none p k [] h = refl
  lookup-keep_if-none p k ((j, w) ∷ m) h = ground (arith, lookup-keep_if-none p k m)

  -- On a map with distinct keys.
  pub lookup-keep_if :
      (p : V → Bool) (k : Text) (m : List (Text × V))
      → Distinct m
      → lookup k (keep_if p m)
        ≡ elim (lookup k m) [ none ↦ none | some v ↦ if p v then some v else none ]
  unfolding lookup keep_if
  lookup-keep_if p k [] d = refl
  lookup-keep_if p k ((j, w) ∷ m) d =
      ground (arith, text_eq_iff j k, lookup-keep_if p k m d.1, lookup-keep_if-none p k m)

  pub insert-Distinct :
      (k : Text) (v : V) (m : List (Text × V)) → Distinct m → Distinct (insert k v m)
  unfolding insert lookup
  insert-Distinct k v [] d = (refl, tt)
  insert-Distinct k v ((j, w) ∷ m) d = elim (Bool-cases (text_eq j k)) [
    | inl e ↦ rw e d
    | inr e ↦ rw e (
      ground (arith, lookup-insert k j v m, text_eq_iff j k, text_eq_iff k j),
      insert-Distinct k v m d.1,
    )
  ]

  pub delete-Distinct : (k : Text) (m : List (Text × V)) → Distinct m → Distinct (delete k m)
  unfolding delete
  delete-Distinct k [] d = tt
  delete-Distinct k ((j, w) ∷ m) d = elim (Bool-cases (text_eq j k)) [
    | inl e ↦ rw e (delete-Distinct k m d.1)
    | inr e ↦ rw e (ground (arith, lookup-delete k j m), delete-Distinct k m d.1)
  ]

  pub keep_if-Distinct : (p : V → Bool) (m : List (Text × V)) → Distinct m → Distinct (keep_if p m)
  unfolding keep_if
  keep_if-Distinct p [] d = tt
  keep_if-Distinct p ((j, w) ∷ m) d = elim (Bool-cases (p w)) [
    | inl e ↦ rw e (lookup-keep_if-none p j m d.0, keep_if-Distinct p m d.1)
    | inr e ↦ rw e (keep_if-Distinct p m d.1)
  ]

  pub length-insert :
      (k : Text) (v : V) (m : List (Text × V))
      → length (insert k v m) ≡ elim (lookup k m) [ none ↦ suc (length m) | some w ↦ length m ]
  unfolding insert lookup
  length-insert k v [] = refl
  length-insert k v ((j, w) ∷ m) = ground (arith, length-insert k v m)

  pub length-delete-le : (k : Text) (m : List (Text × V)) → length (delete k m) ≤ length m
  unfolding delete
  length-delete-le k [] = omega arith
  length-delete-le k ((j, w) ∷ m) = ground (arith, length-delete-le k m)

  pub length-keep_if-le : (p : V → Bool) (m : List (Text × V)) → length (keep_if p m) ≤ length m
  unfolding keep_if
  length-keep_if-le p [] = omega arith
  length-keep_if-le p ((j, w) ∷ m) = ground (arith, length-keep_if-le p m)

module _ {ℓ κ} {V : Type ℓ} (P : Text → V → Type κ) where
  pub Entries-lookup :
      (k : Text) (v : V) (m : List (Text × V)) → Entries P m → lookup k m ≡ some v → P k v
  unfolding lookup
  Entries-lookup k v [] h e = cc
  Entries-lookup k v ((j, w) ∷ m) h e = elim (Bool-cases (text_eq j k)) [
    | inl hit ↦ subst (λ q. P q v) ((text_eq_iff j k).0 hit) (subst (P j) (ground arith) h.0)
    | inr miss ↦ Entries-lookup k v m h.1 (rw miss at e)
  ]

  pub insert-Entries :
      (k : Text) (v : V) (m : List (Text × V)) → Entries P m → P k v → Entries P (insert k v m)
  unfolding insert
  insert-Entries k v [] h p = (p, tt)
  insert-Entries k v ((j, w) ∷ m) h p = elim (Bool-cases (text_eq j k)) [
    | inl e ↦ rw e (subst (λ q. P q v) (sym ((text_eq_iff j k).0 e)) p, h.1)
    | inr e ↦ rw e (h.0, insert-Entries k v m h.1 p)
  ]

  pub delete-Entries : (k : Text) (m : List (Text × V)) → Entries P m → Entries P (delete k m)
  unfolding delete
  delete-Entries k [] h = tt
  delete-Entries k ((j, w) ∷ m) h = elim (Bool-cases (text_eq j k)) [
    | inl e ↦ rw e (delete-Entries k m h.1)
    | inr e ↦ rw e (h.0, delete-Entries k m h.1)
  ]

  pub keep_if-Entries : (p : V → Bool) (m : List (Text × V)) → Entries P m → Entries P (keep_if p m)
  unfolding keep_if
  keep_if-Entries p [] h = tt
  keep_if-Entries p ((j, w) ∷ m) h = elim (Bool-cases (p w)) [
    | inl e ↦ rw e (h.0, keep_if-Entries p m h.1)
    | inr e ↦ rw e (keep_if-Entries p m h.1)
  ]
