-- ===== src/System/Events.antt =====
-- What any sequence of events (daemon.go) leaves in the daemon's store and limiter.
use tp.Prelude.{
  ℕ, ◌≡◌, refl, List, [], ◌∷◌, Bool, Option, none, some, ap, sym, subst, ltb, length, Bool-cases,
  inl, inr,
}
use tp.Prelude.Text.{Text}
use tp.Prelude.Int.{ℤ}
use tp.Pake.Crypto.{Crypto}
use tp.Hex.{hex_decode}
use tp.Store.{Store, AddResult, added, too_many, collision, add, max_paste_size}
use tp.Store.History.{posts, dels, clears, sweeps, new_paste, after_add}
use tp.Store.History
use tp.Store.Invariant.{IsValid, run-IsValid}
use tp.Limiter.{Limiter}
use tp.Limiter
use tp.Discovery.{Net}
use tp.Control.{
  Parsers, Query, Daemon, Draw, Posted, Options, parsed, bad_ttl, bad_max_gets, parse_post_options,
  post_body, post_loop, attempt, add_answer, handle_post, del_decoded, touch, handle_list,
  handle_delete, handle_delete_all,
}
use tp.Background.{Host, sweep_tick, sweep_all, net_round, asked_peers, waits, Poll}
use tp.Interfaces.{refresh, Iface}
use tp.System.{
  Event, posts, lists, asks_peers, deletes, deletes_all, connects, hears, passes, ticks, changes,
  session_of, ends, step, run,
}
use tp.Limiter.{limit_run}
use tp.System.Histories.{Stored, Limited, Stored-trans, Limited-trans, handshake-Keeps}

unchanged : (s : Store) → Stored s s
unfolding tp.Store.History.run
unchanged s = ([], refl)

one_step : (s : Store) (o : tp.Store.History.Op) → Stored s (tp.Store.History.step s o)
unfolding tp.Store.History.run
one_step s o = (o ∷ [], refl)

unlimited : (l : Limiter) → Limited l l
unfolding limit_run
unlimited l = ([], refl)

added-Stored :
    (s : Store) (label : Text) (expires gets : ℕ) (body : List ℕ) (code : Text) (prs : List ℕ)
    (again : Store × Posted) (r : AddResult)
    → Stored s again.0
    → add s (new_paste label expires gets prs body) ≡ r
    → Stored s (add_answer s code expires r again).0
unfolding tp.Store.History.run tp.Store.History.step
added-Stored s label expires gets body code prs again (added t) h e =
    (tp.Store.History.posts label expires gets prs body ∷ [], sym (ap (after_add s) e))
added-Stored s label expires gets body code prs again too_many h e = unchanged s
added-Stored s label expires gets body code prs again collision h e = h

attempt-Stored :
    (s : Store) (label : Text) (expires gets : ℕ) (body : List ℕ) (code : Text)
    (secret : Option (List ℕ)) (again : Store × Posted)
    → Stored s again.0
    → Stored s (attempt s label expires gets body code secret again).0
attempt-Stored s label expires gets body code none again h = unchanged s
attempt-Stored s label expires gets body code (some prs) again h =
    added-Stored s label expires gets body code prs again
      (add s (new_paste label expires gets prs body)) h refl

post_loop-Stored :
    (s : Store) (label : Text) (expires gets : ℕ) (body : List ℕ) (draws : List Draw)
    → Stored s (post_loop s label expires gets body draws).0
unfolding post_loop
post_loop-Stored s label expires gets body [] = unchanged s
post_loop-Stored s label expires gets body (d ∷ draws) =
    attempt-Stored s label expires gets body d.code d.prs _
      (post_loop-Stored s label expires gets body draws)

post_body-Stored :
    (ps : Parsers) (d : Daemon) (q : Query) (now : ℕ) (draws : Bool → List Draw) (body : List ℕ)
    (o : Options)
    → Stored d.store (post_body ps d q now draws body o).0.store
post_body-Stored ps d q now draws body bad_ttl = unchanged d.store
post_body-Stored ps d q now draws body bad_max_gets = unchanged d.store
post_body-Stored ps d q now draws body (parsed o) =
    post_loop-Stored d.store q.label _ o.max_gets body _

handle_post-Stored :
    (ps : Parsers) (d : Daemon) (q : Query) (used now : ℕ) (draws : Bool → List Draw)
    (body : Option (List ℕ))
    → Stored d.store (handle_post ps d q used now draws body).0.store
unfolding handle_post touch
handle_post-Stored ps d q used now draws none = unchanged d.store
handle_post-Stored ps d q used now draws (some body) =
    elim (Bool-cases (ltb max_paste_size (length body))) [
      | inl large ↦ rw large (unchanged d.store)
      | inr fits ↦
          rw fits (post_body-Stored ps (touch d used) q now draws body (parse_post_options ps q))
    ]

deleted-Stored : (s : Store) (o : Option (List ℕ)) → Stored s (del_decoded s o).0
unfolding tp.Store.History.step
deleted-Stored s none = unchanged s
deleted-Stored s (some prs) = one_step s (dels prs)

-- A daemon's store and limiter follow from another's.
abbrev pub After : Host → Host → Type 0
After h g = Stored h.control.store g.control.store × Limited h.limiter g.limiter

asked_peers-After :
    (h : Host) (used : ℕ) (wait : Option ℤ) (polls : List Poll)
    → After h (asked_peers h used wait polls).0
unfolding asked_peers touch
asked_peers-After h used wait polls = elim (Bool-cases (waits wait)) [
  | inl long ↦ rw long (unchanged h.control.store, unlimited h.limiter)
  | inr short ↦ rw short (unchanged h.control.store, unlimited h.limiter)
]

net_round-After : (h : Host) (all : Option (List Iface)) → After h (net_round h all).0
unfolding net_round
net_round-After h all = elim (Bool-cases (refresh h.filter all).1) [
  | inl changed ↦ rw changed (unchanged h.control.store, unlimited h.limiter)
  | inr same ↦ rw same (unchanged h.control.store, unlimited h.limiter)
]

module _ (c : Crypto) where
  step-After : (ps : Parsers) (net : Net) (h : Host) (e : Event c) → After h (step c ps net h e)
  unfolding step handle_list handle_delete handle_delete_all touch sweep_tick sweep_all
      tp.Store.History.step tp.Limiter.step tp.Store.History.run limit_run
  step-After ps net h (posts q used now draws body) =
      (handle_post-Stored ps h.control q used now draws body, unlimited h.limiter)
  step-After ps net h (lists used) = (unchanged h.control.store, unlimited h.limiter)
  step-After ps net h (asks_peers used wait polls) = asked_peers-After h used wait polls
  step-After ps net h (deletes used path) =
      (deleted-Stored h.control.store (hex_decode path), unlimited h.limiter)
  step-After ps net h (deletes_all used) = (one_step h.control.store clears, unlimited h.limiter)
  step-After ps net h (connects l draw incoming) =
      (handshake-Keeps c h.host_id l draw).keeps (session_of c h incoming)
  step-After ps net h (hears src rrs now) = (unchanged h.control.store, unlimited h.limiter)
  step-After ps net h (passes src) = (unchanged h.control.store, unlimited h.limiter)
  step-After ps net h (ticks t) =
      (one_step h.control.store (sweeps t.at_store), (tp.Limiter.sweeps t.at_limiter ∷ [], refl))
  step-After ps net h (changes all) = net_round-After h all

  events-After :
      (ps : Parsers) (net : Net) (h : Host) (es : List (Event c)) → After h (run c ps net h es)
  unfolding run
  events-After ps net h [] = (unchanged h.control.store, unlimited h.limiter)
  events-After ps net h (e ∷ es) = elim (Bool-cases (ends c h e)) [
    | inl over ↦ rw over (step-After ps net h e)
    | inr on ↦
        let (s, l) = step-After ps net h e in
        let (t, m) = events-After ps net (step c ps net h e) es in
        rw on (Stored-trans h.control.store _ _ s t, Limited-trans h.limiter _ _ l m)
  ]

  -- Whatever requests, exchanges, announcements, ticks and network changes a daemon meets until it ends, its store is
  -- what some history of the store's methods makes of the first one, and its limiter what some history of
  -- the limiter's does; so a store that starts well-formed stays well-formed, with at most 256 pastes, each
  -- intact under the key of its secret.
  pub run-After :
      (ps : Parsers) (net : Net) (h : Host) (es : List (Event c))
      → IsValid h.control.store
      → After h (run c ps net h es) × IsValid (run c ps net h es).control.store
  run-After ps net h es v = (
    events-After ps net h es,
    subst IsValid (sym (events-After ps net h es).0.1)
        (run-IsValid h.control.store (events-After ps net h es).0.0 v),
  )
