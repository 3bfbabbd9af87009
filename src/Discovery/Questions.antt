-- ===== src/Discovery/Questions.antt =====
-- Questions and timers of the responder of mdns.go as steps: `answerQuestions` with `scheduleAnswer` and
-- `allowLegacy`, and the timer. Packets are handled one after the other and each part reads the clock
-- under its lock, so the times of the steps do not go back. The timer's function stamps its time
-- under the lock and sends once it is released.
use tp.Prelude.{ℕ, ◌≤◌, ◌≡◌, List, [], ◌∷◌, ◌++◌, Bool, true, false, ◌&&◌, ◌||◌, Option, none, some}
use tp.Prelude.Text.{Text}
use tp.Discovery.Responder.{
  Responder, answer, answer_questions, Reaction, ignored, replies, limited, schedules,
  legacy_source, is_asked,
}

-- A responder, the times at which its timers are due, the last clock reading, the times that its
-- timers stamped and those of its unicast replies, the last one first, and whether the service was asked
-- for by multicast since the last stamp.
pub record System : Type 0 where
  pub responder : Responder
  pub due : List ℕ
  pub clock : ℕ
  pub stamps : List ℕ
  pub unicast : List ℕ
  pub owed : Bool

abbrev pub or_due : Option ℕ → List ℕ → List ℕ
or_due none old = old
or_due (some t) old = t ∷ old

abbrev due_after : Reaction → List ℕ → List ℕ
due_after ignored old = old
due_after (replies port) old = old
due_after limited old = old
due_after (schedules t) old = or_due t old

abbrev unicast_after : Reaction → ℕ → List ℕ → List ℕ
unicast_after ignored now old = old
unicast_after (replies port) now old = now ∷ old
unicast_after limited now old = old
unicast_after (schedules t) now old = old

-- Some question names the service, the instance or the host.
abbrev pub concerns : Responder → List Text → Bool
concerns r [] = false
concerns r (name ∷ names) = is_asked r name || concerns r names

abbrev pub is_multicast : Option ℕ → Bool
is_multicast none = true
is_multicast (some port) = false

abbrev pub noted : Responder × Reaction → System → ℕ → Bool → System
noted (r, x) s now owes = record {
  responder = r;
  due = due_after x s.due;
  clock = now;
  stamps = s.stamps;
  unicast = unicast_after x now s.unicast;
  owed = owes || s.owed;
}

-- Questions with these names from a source.
abbrev pub asked : System → Option ℕ → ℕ → ℕ → List Text → System
asked s src now draw names =
    noted (answer_questions s.responder src now draw names) s now
      (concerns s.responder names && is_multicast (legacy_source src))

abbrev pub rung : System → List ℕ → ℕ → System
rung s left now = record {
  responder = answer s.responder now;
  due = left;
  clock = now;
  stamps = now ∷ s.stamps;
  unicast = s.unicast;
  owed = false;
}

-- A timer does not ring before it is due.
pub data Step (s : System) : System → Type 0 where
  asks :
      (src : Option ℕ) (now draw : ℕ) (names : List Text)
      → s.clock ≤ now
      → Step s (asked s src now draw names)
  rings :
      (now due : ℕ) (front back : List ℕ)
      → s.clock ≤ now
      → s.due ≡ front ++ (due ∷ back)
      → due ≤ now
      → Step s (rung s (front ++ back) now)

abbrev pub new_system : Responder → ℕ → System
new_system r start = record {
  responder = r;
  due = [];
  clock = start;
  stamps = [];
  unicast = [];
  owed = false;
}

pub data Reach (r : Responder) (start : ℕ) : System → Type 0 where
  here : Reach r start (new_system r start)
  next : {s t : System} → Reach r start s → Step s t → Reach r start t
