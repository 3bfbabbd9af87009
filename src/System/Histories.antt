-- ===== src/System/Histories.antt =====
-- The daemon uses its store and its limiter only through their methods.
use tp.Prelude.{
  ℕ, ◌≡◌, refl, List, [], ◌∷◌, ◌++◌, Bool, true, false, Option, none, some, ap, ◌∙◌, sym,
}
use tp.Prelude.Text.{Text}
use tp.Errors.{Result, ok, err}
use tp.Pake.Crypto.{Crypto}
use tp.Store.{Store, take, del, clear, sweep}
use tp.Store
use tp.Store.History
use tp.Store.History.{takes, dels, clears, sweeps, posts}
use tp.Limiter.{limit_run, Limiter, peers, exchanges, fails}
use tp.Limiter
use tp.Session.{
  Session, continue, receive, transmit, read_hello, admit_peer, admit_exchange, take_body, touch,
  confirm_match, serve_offer, current_candidates, handshake, ◌>>=◌, ◌>>◌, lift, Link,
}
use tp.Session.{read_result, written, matched_or_fail, found_side, some_or, share_of, open_exchange}
use tp.Wire.{read_frame, write_frame, hello_len, mac_len}
use tp.Pake.Side.{PakeSide, channel_id, seal_payload}
use tp.Offer.{build_offer, match_confirmation}
use tp.Session

-- The state after some history of the store.
abbrev pub Stored : Store → Store → Type 0
Stored s t = (os : List tp.Store.History.Op) × (t ≡ tp.Store.History.run s os)

abbrev pub Limited : Limiter → Limiter → Type 0
Limited l m = (os : List tp.Limiter.Op) × (m ≡ limit_run l os)

run-append :
    (s : Store) (a b : List tp.Store.History.Op)
    → tp.Store.History.run s (a ++ b) ≡ tp.Store.History.run (tp.Store.History.run s a) b
unfolding tp.Store.History.run
run-append s [] b = refl
run-append s (o ∷ a) b = run-append (tp.Store.History.step s o) a b

limit_run-append :
    (l : Limiter) (a b : List tp.Limiter.Op) → limit_run l (a ++ b) ≡ limit_run (limit_run l a) b
unfolding limit_run
limit_run-append l [] b = refl
limit_run-append l (o ∷ a) b = limit_run-append (tp.Limiter.step l o) a b

pub Stored-trans : (s t u : Store) → Stored s t → Stored t u → Stored s u
Stored-trans s t u (a, p) (b, q) =
    (a ++ b, q ∙ ap (λ x. tp.Store.History.run x b) p ∙ sym (run-append s a b))

pub Limited-trans : (l m n : Limiter) → Limited l m → Limited m n → Limited l n
Limited-trans l m n (a, p) (b, q) =
    (a ++ b, q ∙ ap (λ x. limit_run x b) p ∙ sym (limit_run-append l a b))

-- A state of a handshake follows from another.
abbrev pub Follows : tp.Session.Host → tp.Session.Host → Type 0
Follows g h = Stored g.store h.store × Limited g.limiter h.limiter

same_state : (g h : tp.Session.Host) → g.store ≡ h.store → g.limiter ≡ h.limiter → Follows g h
unfolding tp.Store.History.run limit_run
same_state g h p q = (([], sym p), ([], sym q))

Follows-trans : (f g h : tp.Session.Host) → Follows f g → Follows g h → Follows f h
Follows-trans f g h (a, b) (c, d) =
    (Stored-trans f.store g.store h.store a c, Limited-trans f.limiter g.limiter h.limiter b d)

-- A program that uses the store and the limiter through their methods only.
pub record Keeps {ℓ} {A : Type ℓ} (p : Session A) : Type 0 where
  pub keeps : (h : tp.Session.Host) → Follows h (p h).1

continue-Follows {ℓ κ} :
    {A : Type ℓ} {B : Type κ} (g : tp.Session.Host) (f : A → Session B)
    (r : Result A × tp.Session.Host)
    → ((a : A) → Keeps (f a))
    → Follows g r.1
    → Follows g (continue f r).1
continue-Follows g f (ok a, h) k p = Follows-trans g h (f a h).1 p ((k a).keeps h)
continue-Follows g f (err e, h) k p = p

bind-Keeps {ℓ κ} :
    {A : Type ℓ} {B : Type κ} {p : Session A} {f : A → Session B}
    → Keeps p
    → ((a : A) → Keeps (f a))
    → Keeps (p >>= f)
bind-Keeps {p = p} {f = f} k l = record { keeps = λ h. continue-Follows h f (p h) l (k.keeps h) }

lift-Keeps {ℓ} : {A : Type ℓ} (r : Result A) → Keeps (lift r)
lift-Keeps r = record { keeps = λ h. same_state h h refl refl }

read-Follows : (h : tp.Session.Host) (r : Result (List ℕ × List ℕ)) → Follows h (read_result h r).1
read-Follows h (ok (b, rest)) = same_state h (record h { incoming = rest }) refl refl
read-Follows h (err e) = same_state h h refl refl

written-Follows :
    (works : Bool) (h : tp.Session.Host) (r : Result (List ℕ)) → Follows h (written works h r).1
written-Follows true h (ok b) = same_state h (record h { outgoing = h.outgoing ++ b }) refl refl
written-Follows false h (ok b) = same_state h h refl refl
written-Follows works h (err e) = same_state h h refl refl

receive-Keeps : (limit : ℕ) → Keeps (receive limit)
unfolding receive
receive-Keeps limit = record { keeps = λ h. read-Follows h (read_frame limit h.incoming) }

transmit-Keeps : (works : Bool) (b : List ℕ) → Keeps (transmit works b)
unfolding transmit
transmit-Keeps works b = record { keeps = λ h. written-Follows works h (write_frame b) }

admit_peer-Keeps : (host : Text) (now : ℕ) → Keeps (admit_peer host now)
unfolding admit_peer limit_run tp.Limiter.step tp.Store.History.run
admit_peer-Keeps host now = record { keeps = λ h. (([], refl), (peers host now ∷ [], refl)) }

admit_exchange-Keeps : (now : ℕ) → Keeps (admit_exchange now)
unfolding admit_exchange limit_run tp.Limiter.step tp.Store.History.run
admit_exchange-Keeps now = record { keeps = λ h. (([], refl), (exchanges now ∷ [], refl)) }

take_body-Keeps : (prs : List ℕ) (now : ℕ) → Keeps (take_body prs now)
unfolding take_body limit_run tp.Store.History.step tp.Store.History.run
take_body-Keeps prs now = record { keeps = λ h. ((takes prs now ∷ [], refl), ([], refl)) }

touch-Keeps : (now : ℕ) → Keeps (touch now)
unfolding touch
touch-Keeps now = record { keeps = λ h. same_state h (touch now h).1 refl refl }

read_hello-Keeps : Keeps read_hello
unfolding read_hello
read_hello-Keeps = bind-Keeps (receive-Keeps hello_len) (λ hello. lift-Keeps (share_of hello))

current_candidates-Keeps :
    (c : Crypto) (now : ℕ) (pick : ℕ → ℕ) → Keeps (current_candidates c now pick)
unfolding current_candidates
current_candidates-Keeps c now pick = record { keeps = λ h. same_state h h refl refl }

fail-Follows :
    (h : tp.Session.Host) (host : Text) (now : ℕ)
    → Follows h (record h { limiter = tp.Limiter.fail h.limiter host now })
unfolding limit_run tp.Limiter.step tp.Store.History.run
fail-Follows h host now = (([], refl), (fails host now ∷ [], refl))

module _ (c : Crypto) where
  matched-Keeps :
      (host : Text) (now : ℕ) (r : Option (PakeSide c × List ℕ))
      → Keeps (matched_or_fail c host now r)
  matched-Keeps host now none = record { keeps = λ h. fail-Follows h host now }
  matched-Keeps host now (some r) = record { keeps = λ h. same_state h h refl refl }

  confirm_match-Keeps :
      (host : Text) (now : ℕ) (sides : List (PakeSide c)) (cands : List (List ℕ)) (tag : List ℕ)
      → Keeps (confirm_match c host now sides cands tag)
  unfolding confirm_match
  confirm_match-Keeps host now sides cands tag =
      matched-Keeps host now (found_side c sides cands (match_confirmation c sides tag))

  serve_offer-Keeps :
      (host_id : Text) (l : Link) (host : Text) (draw : ℕ → c.Scalar) (sid peer : List ℕ)
      (cands : List (List ℕ))
      → Keeps (serve_offer c host_id l host draw sid peer cands)
  unfolding serve_offer
  serve_offer-Keeps host_id l host draw sid peer cands =
      bind-Keeps (lift-Keeps (build_offer c cands (channel_id host_id) sid peer draw)) (λ built.
        bind-Keeps (transmit-Keeps l.write_ok built.1) (λ sent.
          bind-Keeps (receive-Keeps mac_len) (λ tag.
            bind-Keeps (confirm_match-Keeps host l.fail_time built.0 cands tag) (λ found.
              bind-Keeps (take_body-Keeps found.1 l.take_time) (λ body.
                bind-Keeps (touch-Keeps l.touch_time)
                  (λ touched. transmit-Keeps l.write_ok (seal_payload c found.0 body)))))))

  pub handshake-Keeps :
      (host_id : Text) (l : Link) (draw : ℕ → c.Scalar) → Keeps (handshake c host_id l draw)
  unfolding handshake
  handshake-Keeps host_id l draw = bind-Keeps (lift-Keeps (some_or _ l.remote)) (λ host.
      bind-Keeps (admit_peer-Keeps host l.peer_time) (λ admitted.
        bind-Keeps (lift-Keeps (open_exchange l)) (λ sid. bind-Keeps read_hello-Keeps (λ share.
          bind-Keeps (admit_exchange-Keeps l.exchange_time) (λ charged.
            bind-Keeps (current_candidates-Keeps c l.offer_time l.pick)
              (λ cands. serve_offer-Keeps host_id l host draw sid share cands))))))
