-- ===== src/Store/Offers.antt =====
-- `candidates` of store.go: what an offer is made of.
use tp.Prelude.{
  ℕ, ◌+◌, ◌-◌, ◌≤◌, ◌<◌, ◌≡◌, refl, List, [], ◌∷◌, arith, if◌then◌else◌, length, length-append,
  length-replicate, replicate,
}
use tp.Prelude.Text.{Text, text_eq}
use tp.Prelude.Maps.{values}
use tp.Random.{shuffle}
use tp.Random.Counts.{IsFair, count, count-append, count-replicate, count-shuffle}
use tp.Store.{Store, Paste, live_secrets, candidates, padded_count, pad_to}
use tp.Store.Padding.{IsBucket, padded_count_lem}
use tp.Store.Invariant.{IsValid}

pub length-values {ℓ} : {V : Type ℓ} (m : List (Text × V)) → length (values m) ≡ length m
length-values [] = refl
length-values ((k, v) ∷ m) = omega (arith, length-values m)

pub length-live_secrets-le : (now : ℕ) (ps : List Paste) → length (live_secrets now ps) ≤ length ps
unfolding live_secrets
length-live_secrets-le now [] = omega arith
length-live_secrets-le now (p ∷ ps) = ground (arith, length-live_secrets-le now ps)

-- How often a secret occurs in a list.
abbrev pub occurs : List ℕ → List (List ℕ) → ℕ
occurs x = count (λ y. text_eq y x)

-- On a valid store, with draws in range, the offer lists the secrets of the live pastes and the
-- decoy, each as often as there are live pastes with it, the decoy filling the rest up to the
-- padded size; that size is a bucket of at most 512 and exceeds the number of live pastes.
pub candidates_lem :
    (s : Store) (now : ℕ) (pick : ℕ → ℕ) (x : List ℕ)
    → IsValid s
    → IsFair pick
    → let live = live_secrets now (values s.m) in
      let offer = candidates s now pick in
      (occurs x offer
        ≡ occurs x live + (if text_eq s.decoy x then length offer - length live else 0))
      × (length offer ≡ padded_count (length live))
      × (length live < length offer)
      × IsBucket (length offer)
unfolding candidates pad_to
candidates_lem s now pick x v f = (same, size, rw size room.1, rw size room.0)
  where
    live : List (List ℕ)
    live = live_secrets now (values s.m)

    padded : List (List ℕ)
    padded = pad_to (padded_count (length live)) s.decoy live

    room : IsBucket (padded_count (length live)) × (length live < padded_count (length live))
    room =
        let t =
          padded_count_lem (length live) (
            omega (arith, v.bounded, length-live_secrets-le now (values s.m), length-values s.m)) in
        (t.0, t.1)

    shuffled :
        (occurs x (shuffle pick padded) ≡ occurs x padded)
        × (length (shuffle pick padded) ≡ length padded)
    shuffled = count-shuffle (λ y. text_eq y x) pick padded f

    size : length (shuffle pick padded) ≡ padded_count (length live)
    size = omega (
      arith,
      shuffled.1,
      room.1,
      length-append live (replicate (padded_count (length live) - length live) s.decoy),
      length-replicate (padded_count (length live) - length live) s.decoy,
    )

    same :
        occurs x (shuffle pick padded)
        ≡ occurs x live
          + (if text_eq s.decoy x then length (shuffle pick padded) - length live else 0)
    same = ground (
      arith,
      shuffled.0,
      size,
      count-append (λ y. text_eq y x) live
          (replicate (padded_count (length live) - length live) s.decoy),
      count-replicate (λ y. text_eq y x) (padded_count (length live) - length live) s.decoy,
    )
