-- ===== src/Discovery/Answering.antt =====
-- How often the responder of mdns.go answers.
use tp.Prelude.{
  ℕ, ◌+◌, ◌≤◌, ◌<◌, ◌≡◌, refl, List, [], ◌∷◌, ◌++◌, Bool, true, false, ◌&&◌, ◌||◌, Option, none,
  some, arith, subst, sym, ◌∙◌, if◌then◌else◌, length, inl, inr,
}
use tp.Prelude.Text.{Text}
use tp.Limiter.{Bucket, take}
use tp.Limiter.Rate.{one, Pays, take-Paid, Within, take-Within, mul_mono}
use tp.Discovery.{answer_min_gap}
use tp.Discovery.Responder.{
  Responder, new_responder, schedule_answer, answer, answer_questions, Reaction, ignored, react,
  legacy_reaction, legacy_source, is_asked, allow_legacy, legacy_burst, legacy_per_second,
}
use tp.Discovery.Questions.{
  System, or_due, concerns, is_multicast, noted, asked, rung, Step, Reach, asks, rings, here, next,
}

-- The times are at least a second apart.
abbrev pub Spaced : List ℕ → Type 0
Spaced [] = Unit {0}
Spaced (t ∷ []) = Unit {0}
Spaced (t ∷ u ∷ ts) = (u + answer_min_gap ≤ t) × Spaced (u ∷ ts)

abbrev head : List ℕ → Option ℕ
head [] = none
head (t ∷ ts) = some t

abbrev AfterGap : Option ℕ → List ℕ → Type 0
AfterGap none due = Unit {0}
AfterGap (some last) [] = Unit {0}
AfterGap (some last) (t ∷ ts) = (last + answer_min_gap ≤ t) × AfterGap (some last) ts

-- One timer is set just when the flag says so, and never two.
abbrev IsArmed : Bool → List ℕ → Type 0
IsArmed true [] = ⊥
IsArmed true (t ∷ []) = Unit {0}
IsArmed true (t ∷ u ∷ ts) = ⊥
IsArmed false [] = Unit {0}
IsArmed false (t ∷ ts) = ⊥

-- A timer is set if an answer is owed.
abbrev IsHonoured : Bool → List ℕ → Type 0
IsHonoured false due = Unit {0}
IsHonoured true [] = ⊥
IsHonoured true (t ∷ due) = Unit {0}

pub record IsPaced (start : ℕ) (s : System) : Type 0 where
  pub pending : IsArmed s.responder.answer_pending s.due
  pub latest : s.responder.last_answer ≡ head s.stamps
  pub waits : AfterGap s.responder.last_answer s.due
  pub spaced : Spaced s.stamps
  pub honoured : IsHonoured s.owed s.due
  pub begun : start ≤ s.clock
  pub paid : Pays legacy_burst legacy_per_second start (length s.unicast) s.responder.legacy_bucket
  pub capped : Within legacy_burst legacy_per_second start s.clock (length s.unicast)

schedule-AfterGap :
    (r : Responder) (now draw : ℕ) (due : List ℕ)
    → IsArmed r.answer_pending due
    → AfterGap r.last_answer due
    → (IsArmed
        (schedule_answer r now draw).0.answer_pending
        (or_due (schedule_answer r now draw).1 due))
      × ((schedule_answer r now draw).0.last_answer ≡ r.last_answer)
      × AfterGap r.last_answer (or_due (schedule_answer r now draw).1 due)
      × ((schedule_answer r now draw).0.legacy_bucket ≡ r.legacy_bucket)
unfolding schedule_answer
schedule-AfterGap r now draw due p w = ground arith

schedule_answer-IsHonoured :
    (r : Responder) (now draw : ℕ) (due : List ℕ)
    → IsArmed r.answer_pending due
    → IsHonoured true (or_due (schedule_answer r now draw).1 due)
unfolding schedule_answer
schedule_answer-IsHonoured r now draw [] p = ground arith
schedule_answer-IsHonoured r now draw (t ∷ due) p = ground arith

-- A timer that rings was the only one.
only_timer :
    (pending : Bool) (last : Option ℕ) (due : ℕ) (front back : List ℕ)
    → IsArmed pending (front ++ (due ∷ back))
    → AfterGap last (front ++ (due ∷ back))
    → (front ++ back ≡ []) × AfterGap last (due ∷ [])
only_timer true last due [] [] p w = (refl, w)
only_timer true last due [] (b ∷ back) p w = absurd p
only_timer true last due (f ∷ []) back p w = absurd p
only_timer true last due (f ∷ g ∷ front) back p w = absurd p
only_timer false last due [] back p w = absurd p
only_timer false last due (f ∷ front) back p w = absurd p

Spaced-more :
    (now due : ℕ) (stamps : List ℕ)
    → AfterGap (head stamps) (due ∷ [])
    → due ≤ now
    → Spaced stamps
    → Spaced (now ∷ stamps)
Spaced-more now due [] w h s = tt
Spaced-more now due (t ∷ ts) w h s = (omega (arith, w.0), s)

answer_questions_lem :
    (r : Responder) (src : Option ℕ) (now draw : ℕ) (names : List Text)
    → answer_questions r src now draw names
      ≡ (if concerns r names then react r (legacy_source src) now draw else (r, ignored))
unfolding answer_questions
answer_questions_lem r src now draw [] = refl
answer_questions_lem r src now draw (name ∷ names) =
    picked (is_asked r name) (concerns r names) _ _ (answer_questions_lem r src now draw names)
  where
    picked :
        (here later : Bool) (x y : Responder × Reaction) {z : Responder × Reaction}
        → z ≡ (if later then x else y)
        → (if here then x else z) ≡ (if here || later then x else y)
    picked true later x y e = refl
    picked false later x y e = e

Within-later :
    (start now then' g : ℕ)
    → now ≤ then'
    → Within legacy_burst legacy_per_second start now g
    → Within legacy_burst legacy_per_second start then' g
Within-later start now then' g h w = omega (arith, mul_mono now then' legacy_per_second h)

legacy-IsPaced :
    (start now port : ℕ) (s : System) (b : Bucket) (granted : Bool)
    → s.clock ≤ now
    → IsPaced start s
    → Pays legacy_burst legacy_per_second start (length s.unicast + one granted) b
    → Within legacy_burst legacy_per_second start now (length s.unicast + one granted)
    → IsPaced start (
        noted
          (legacy_reaction port (record s.responder { legacy_bucket = b }, granted))
          s
          now
          false)
legacy-IsPaced start now port s b true h p pays w = record {
  pending = p.pending;
  latest = p.latest;
  waits = p.waits;
  spaced = p.spaced;
  honoured = p.honoured;
  begun = omega (arith, p.begun);
  paid = subst (λ g. Pays legacy_burst legacy_per_second start g b) (omega arith) pays;
  capped = omega (arith, w);
}
legacy-IsPaced start now port s b false h p pays w = record {
  pending = p.pending;
  latest = p.latest;
  waits = p.waits;
  spaced = p.spaced;
  honoured = p.honoured;
  begun = omega (arith, p.begun);
  paid = subst (λ g. Pays legacy_burst legacy_per_second start g b) (omega arith) pays;
  capped = omega (arith, w);
}

-- The questions concern the responder or not, and come from another port or by multicast.
noted-IsPaced :
    (start : ℕ) (s : System) (now draw : ℕ) (b : Bool) (port : Option ℕ)
    → 0 < start
    → s.clock ≤ now
    → IsPaced start s
    → IsPaced start (
        noted
          (if b then react s.responder port now draw else (s.responder, ignored))
          s
          now
          (b && is_multicast port))
unfolding allow_legacy
noted-IsPaced start s now draw false port z h p = record {
  pending = p.pending;
  latest = p.latest;
  waits = p.waits;
  spaced = p.spaced;
  honoured = p.honoured;
  begun = omega (arith, p.begun);
  paid = p.paid;
  capped = Within-later start s.clock now (length s.unicast) h p.capped;
}
noted-IsPaced start s now draw true none z h p =
    let (set, same, after, bucket) =
      schedule-AfterGap s.responder now draw s.due p.pending p.waits in
    record {
      pending = set;
      latest = same ∙ p.latest;
      waits =
          subst (λ l. AfterGap l (or_due (schedule_answer s.responder now draw).1 s.due)) (sym same)
            after;
      spaced = p.spaced;
      honoured = schedule_answer-IsHonoured s.responder now draw s.due p.pending;
      begun = omega (arith, p.begun);
      paid =
          subst (Pays legacy_burst legacy_per_second start (length s.unicast)) (sym bucket) p.paid;
      capped = Within-later start s.clock now (length s.unicast) h p.capped;
    }
noted-IsPaced start s now draw true (some port) z h p =
    let b = s.responder.legacy_bucket in
    let before : start ≤ now = omega (arith, p.begun) in
    let account =
      take-Paid legacy_burst legacy_per_second start (length s.unicast) now b before p.paid in
    legacy-IsPaced start now port s (take b now legacy_burst legacy_per_second).0
      (take b now legacy_burst legacy_per_second).1 h p (inr (omega (arith, account.1), account.0))
      (take-Within legacy_burst legacy_per_second start now (length s.unicast) now b before
        (omega arith) p.paid (Within-later start s.clock now (length s.unicast) h p.capped))

asked-IsPaced :
    (start : ℕ) (s : System) (src : Option ℕ) (now draw : ℕ) (names : List Text)
    → 0 < start
    → s.clock ≤ now
    → IsPaced start s
    → IsPaced start (asked s src now draw names)
asked-IsPaced start s src now draw names z h p =
    subst
      (λ x.
        IsPaced start
          (noted x s now (concerns s.responder names && is_multicast (legacy_source src))))
      (sym (answer_questions_lem s.responder src now draw names))
      (noted-IsPaced start s now draw (concerns s.responder names) (legacy_source src) z h p)

rung-IsPaced :
    (start : ℕ) (s : System) (now due : ℕ) (front back : List ℕ)
    → s.clock ≤ now
    → s.due ≡ front ++ (due ∷ back)
    → due ≤ now
    → IsPaced start s
    → IsPaced start (rung s (front ++ back) now)
unfolding answer
rung-IsPaced start s now due front back later e h p =
    let (none_left, gap) =
      only_timer s.responder.answer_pending s.responder.last_answer due front back
        (subst (IsArmed s.responder.answer_pending) e p.pending)
        (subst (AfterGap s.responder.last_answer) e p.waits) in
    record {
      pending = subst (IsArmed false) (sym none_left) tt;
      latest = refl;
      waits = subst (AfterGap (some now)) (sym none_left) tt;
      spaced =
          Spaced-more now due s.stamps (subst (λ l. AfterGap l (due ∷ [])) p.latest gap) h p.spaced;
      honoured = tt;
      begun = omega (arith, p.begun);
      paid = p.paid;
      capped = Within-later start s.clock now (length s.unicast) later p.capped;
    }

Step-IsPaced : (start : ℕ) (s t : System) → 0 < start → Step s t → IsPaced start s → IsPaced start t
Step-IsPaced start s t z (asks src now draw names h) p =
    asked-IsPaced start s src now draw names z h p
Step-IsPaced start s t z (rings now due front back h e d) p =
    rung-IsPaced start s now due front back h e d p

-- Whatever questions arrive from whatever ports and whenever, from the time `start` of the responder on:
-- it never has two timers, has one exactly while its flag says so, and has one as long as a question by
-- multicast for one of its names is unanswered; its timers stamp their answers at least a second
-- apart; and its unicast replies to other ports are at most five and five for each second since.
pub Reach-IsPaced :
    (host_id : Text) (port : ℕ) (hostname : Text) (start : ℕ) (s : System)
    → 0 < start
    → Reach (new_responder host_id port hostname) start s
    → IsPaced start s
Reach-IsPaced host_id port hostname start s z here =
    unfold new_responder in
    record {
      pending = tt;
      latest = refl;
      waits = tt;
      spaced = tt;
      honoured = tt;
      begun = omega arith;
      paid = inl (refl, refl);
      capped = omega arith;
    }
Reach-IsPaced host_id port hostname start t z (next {s} r st) =
    Step-IsPaced start s t z st (Reach-IsPaced host_id port hostname start s z r)
