-- ===== src/Fetch/Settling.antt =====
-- What one attempt of `fetch` settles (fetch.go, `fetchFrom`), read in the pins of pins.go.
use tp.Prelude.{
  ℕ, ◌≡◌, ◌≢◌, refl, ◌⊎◌, inl, inr, List, Bool, true, false, not, ◌&&◌, Option, none, some, arith,
  if◌then◌else◌, Bool-cases,
}
use tp.Prelude.Text.{Text, text_eq, text_eq_iff}
use tp.Prelude.Maps.{lookup}
use tp.Errors.{Error, Result, ok, err}
use tp.Pake.Crypto.{Crypto}
use tp.Client.{exchange}
use tp.Code.{Unicode}
use tp.Session.{alpn_proto}
use tp.Pins.{Pin, save_pin, read_pins, contents, same_pin}
use tp.Pins.Lines.{IsPinLine, IsEnded}
use tp.Pins.RoundTrip.{save_pin-IsSaved}
use tp.Identity.{host_id}
use tp.Fetch.{Candidate, PinMismatch, Outcome, fetched, mismatch, failed}
use tp.Fetch.Asking.{
  Hashes, PinError, other_host, other_key, check_pin, checked, Dial, after_fetch, kept, fetch_from,
  exchanged, verified, presented,
}

-- The key is the one the pin records, of the host that was discovered; without a pin any key is.
abbrev pub Pinned : Hashes → Candidate → Option Pin → List ℕ → Type 0
Pinned hs c none key = Unit {0}
Pinned hs c (some p) key = (host_id hs.sha256 key ≡ c.host_id) × (hs.spki_hash key ≡ p.spki)

-- The host that was discovered has a pin, and this key is another host's.
abbrev pub OtherHost : Hashes → Candidate → Option Pin → List ℕ → Type 0
OtherHost hs c none key = ⊥
OtherHost hs c (some p) key = host_id hs.sha256 key ≢ c.host_id

-- The discovered host presents another key than its pin records, as the error says.
abbrev pub OtherKey : Hashes → Candidate → Option Pin → List ℕ → PinMismatch → Type 0
OtherKey hs c none key m = ⊥
OtherKey hs c (some p) key m =
    (host_id hs.sha256 key ≡ c.host_id)
    × (hs.spki_hash key ≢ p.spki)
    × (m.host_id ≡ c.host_id)
    × (m.got ≡ hs.spki_hash key)
    × (m.want ≡ p.spki)

-- What the pin of a candidate makes of a key.
abbrev Judged : Hashes → Candidate → Option Pin → List ℕ → Option PinError → Type 0
Judged hs c pin key none = Pinned hs c pin key
Judged hs c pin key (some other_host) = OtherHost hs c pin key
Judged hs c pin key (some (other_key m)) = OtherKey hs c pin key m

checked-Judged :
    (hs : Hashes) (c : Candidate) (pin : Option Pin) (key : List ℕ)
    → Judged hs c pin key (checked hs c pin key)
checked-Judged hs c none key = tt
checked-Judged hs c (some p) key = elim (Bool-cases (text_eq (host_id hs.sha256 key) c.host_id)) [
  | inl here ↦ elim (Bool-cases (text_eq (hs.spki_hash key) p.spki)) [
    | inl same ↦
        rw (here, same)
          (
            (text_eq_iff (host_id hs.sha256 key) c.host_id).0 here,
            (text_eq_iff (hs.spki_hash key) p.spki).0 same,
          )
    | inr changed ↦
        rw (here, changed)
          (
            (text_eq_iff (host_id hs.sha256 key) c.host_id).0 here,
            (λ e. ground (arith, changed, (text_eq_iff (hs.spki_hash key) p.spki).1 e)),
            refl,
            refl,
            refl,
          )
  ]
  | inr other ↦
      rw other (λ e. ground (arith, other, (text_eq_iff (host_id hs.sha256 key) c.host_id).1 e))
]

abbrev pub pin_of : Hashes → Candidate → List ℕ → Pin
pin_of hs c key = record { spki = hs.spki_hash key; hostname = c.hostname }

-- The key that is presented, if there is one, and the host name make a line of the cache.
abbrev pub FitsLine : Unicode → Hashes → Candidate → Option (List ℕ) → Type 0
FitsLine u hs c none = Unit {0}
FitsLine u hs c (some key) = IsPinLine u (host_id hs.sha256 key) (pin_of hs c key)

-- The cache has the key for its host if it may be written and the address is not a loopback address,
-- and is as before in all else.
abbrev pub Kept : Unicode → Hashes → Candidate → Dial → List ℕ → Option Text → Option Text → Type 0
Kept u hs c d key file file' =
    (k : Text)
    → lookup k (read_pins u file').0 ≡ (
        if (not d.loopback && d.writable) && text_eq (host_id hs.sha256 key) k
        then some (pin_of hs c key)
        else lookup k (read_pins u file).0)

denied :
    (u : Unicode) (id : Text) (p : Pin) (file : Option Text)
    → kept file (save_pin u false id p file) ≡ file
unfolding save_pin
denied u id p file = elim (Bool-cases (same_pin p (lookup id (read_pins u file).0))) [
  | inl known ↦ rw known refl
  | inr new ↦ rw new refl
]

after_fetch-Kept :
    (u : Unicode) (hs : Hashes) (c : Candidate) (d : Dial) (key : List ℕ) (file : Option Text)
    → IsPinLine u (host_id hs.sha256 key) (pin_of hs c key)
    → IsEnded (contents file)
    → Kept u hs c d key file (after_fetch u hs c d key file)
after_fetch-Kept u hs c d key file h e k = elim (Bool-cases d.loopback) [
  | inl near ↦ rw near refl
  | inr far ↦ elim (Bool-cases d.writable) [
    | inl open' ↦
        let (file', saved, s) =
          save_pin-IsSaved u (host_id hs.sha256 key) (pin_of hs c key) file h e in
        rw (far, open', saved) (s.pins k)
    | inr closed ↦ rw (far, closed, denied u (host_id hs.sha256 key) (pin_of hs c key) file) refl
  ]
]

-- An early return unless the test passes.
unless :
    {A : Type 0} (P : A → Type 0) (test : Bool) {x y : A}
    → (test ≡ false → P x)
    → (test ≡ true → P y)
    → P (if not test then x else y)
unless P true f t = t refl
unless P false f t = f refl

module _ (crypto : Crypto) (u : Unicode) (hs : Hashes) (prs : List ℕ) (y : crypto.Scalar)
    (c : Candidate) (d : Dial) (file : Option Text) where
  -- What keeps the exchange with a key from a payload.
  abbrev pub Breaks : List ℕ → Type 0
  Breaks key =
      (d.tls_ok ≡ false)
      ⊎ (d.deadline_ok ≡ false)
      ⊎ (d.negotiated ≢ alpn_proto)
      ⊎ ((e : Error) × (exchange crypto prs (host_id hs.sha256 key) d.exported d.works y d.incoming
            ≡ err e))

  -- What an outcome of the attempt, and the cache after it, say of the connection.
  abbrev pub IsSettled : Outcome × Option Text → Type 0
  IsSettled (fetched b, file') =
      (key : List ℕ) × (sent : List ℕ) × (d.dialed ≡ true)
      × (d.spki ≡ some key)
      × Pinned hs c c.pin key
      × (d.tls_ok ≡ true)
      × (d.deadline_ok ≡ true)
      × (d.negotiated ≡ alpn_proto)
      × (exchange crypto prs (host_id hs.sha256 key) d.exported d.works y d.incoming ≡ ok (b, sent))
      × Kept u hs c d key file file'
  IsSettled (mismatch m, file') =
      (key : List ℕ) × (d.dialed ≡ true)
      × (d.spki ≡ some key)
      × OtherKey hs c c.pin key m
      × (file' ≡ file)
  IsSettled (failed, file') =
      (file' ≡ file)
      × ((d.dialed ≡ false)
          ⊎ (d.spki ≡ none)
          ⊎ ((key : List ℕ) × (d.spki ≡ some key)
              × (OtherHost hs c c.pin key ⊎ Pinned hs c c.pin key × Breaks key)))

  exchanged-IsSettled :
      (key : List ℕ) (r : Result (List ℕ × List ℕ))
      → d.dialed ≡ true
      → d.spki ≡ some key
      → IsPinLine u (host_id hs.sha256 key) (pin_of hs c key)
      → IsEnded (contents file)
      → Pinned hs c c.pin key
      → d.tls_ok ≡ true
      → d.deadline_ok ≡ true
      → d.negotiated ≡ alpn_proto
      → exchange crypto prs (host_id hs.sha256 key) d.exported d.works y d.incoming ≡ r
      → IsSettled (exchanged crypto u hs c d key file r)
  exchanged-IsSettled key (err e) a b l f p t s n x =
      (refl, inr (inr (key, b, inr (p, inr (inr (inr (e, x)))))))
  exchanged-IsSettled key (ok (v, sent)) a b l f p t s n x =
      (key, sent, a, b, p, t, s, n, x, after_fetch-Kept u hs c d key file l f)

  verified-IsSettled :
      (key : List ℕ) (o : Option PinError)
      → d.dialed ≡ true
      → d.spki ≡ some key
      → IsPinLine u (host_id hs.sha256 key) (pin_of hs c key)
      → IsEnded (contents file)
      → Judged hs c c.pin key o
      → IsSettled (verified crypto u hs prs y c d key file o)
  verified-IsSettled key (some other_host) a b l f j = (refl, inr (inr (key, b, inl j)))
  verified-IsSettled key (some (other_key m)) a b l f j = (key, a, b, j, refl)
  verified-IsSettled key none a b l f j =
      unless IsSettled d.tls_ok (λ t. broken (inl t))
        (λ t.
          unless IsSettled d.deadline_ok (λ s. broken (inr (inl s)))
            (λ s.
              unless IsSettled (text_eq d.negotiated alpn_proto)
                (λ n. broken (
                  inr (
                    inr (inl (λ e. ground (arith, n, (text_eq_iff d.negotiated alpn_proto).1 e))))))
                (λ n.
                  exchanged-IsSettled key
                    (exchange crypto prs (host_id hs.sha256 key) d.exported d.works y d.incoming) a
                    b l f j t s ((text_eq_iff d.negotiated alpn_proto).0 n) refl)))
    where
      broken : Breaks key → IsSettled (failed, file)
      broken x = (refl, inr (inr (key, b, inr (j, x))))

  presented-IsSettled :
      (o : Option (List ℕ))
      → d.dialed ≡ true
      → d.spki ≡ o
      → FitsLine u hs c o
      → IsEnded (contents file)
      → IsSettled (presented crypto u hs prs y c d file o)
  unfolding check_pin
  presented-IsSettled none a b l f = (refl, inr (inl b))
  presented-IsSettled (some key) a b l f =
      verified-IsSettled key (check_pin hs c key) a b l f (checked-Judged hs c c.pin key)

  -- An attempt whose peer presents a key that makes a line of the cache with the host name, on a cache
  -- that ends its last line, yields a payload only from a peer whose key is the discovered host's and
  -- its pin's, where there is a pin, over TLS with a deadline and the program's protocol, after the exchange with that key's
  -- host ID; the pins read from the cache then are those read before, with the key for its host if the
  -- cache may be written and the address is not a loopback address. It is a pin mismatch only when the
  -- discovered host presents another key than its pin's, and names both. Otherwise there was no
  -- connection, no key, a key of another host than the pinned one, or a failure of TLS, the deadline,
  -- the protocol or the exchange. Without a payload the cache stays as it was.
  pub fetch_from-IsSettled :
      FitsLine u hs c d.spki
      → IsEnded (contents file)
      → IsSettled (fetch_from crypto u hs prs y c d file)
  unfolding fetch_from
  fetch_from-IsSettled l f =
      unless IsSettled d.dialed (λ a. (refl, inl a)) (λ a. presented-IsSettled d.spki a refl l f)
