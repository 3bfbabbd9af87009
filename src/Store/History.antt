-- ===== src/Store/History.antt =====
-- The store's methods as steps of one history (store.go), with the paste that `handlePost` builds
-- (daemon.go).
use tp.Prelude.{ℕ, ◌+◌, List, [], ◌∷◌, Bool, true, false, Option, none, some, length}
use tp.Prelude.Text.{Text, text_eq}
use tp.Store.{
  Store, Paste, AddResult, added, too_many, collision, add, take, del, clear, sweep, paste_key,
}

-- The literal in `handlePost`.
unfoldable pub new_paste : Text → ℕ → ℕ → List ℕ → List ℕ → Paste
new_paste label expires max_gets prs body = record {
  label = label;
  size = length body;
  expires_at = expires;
  max_gets = max_gets;
  gets = 0;
  burned = false;
  prs = prs;
  body = body;
}

pub data Op : Type 0 where
  posts : Text → ℕ → ℕ → List ℕ → List ℕ → Op
  takes : List ℕ → ℕ → Op
  dels : List ℕ → Op
  clears : Op
  sweeps : ℕ → Op

abbrev pub after_add : Store → AddResult → Store
after_add s (added t) = t
after_add s too_many = s
after_add s collision = s

unfoldable pub step : Store → Op → Store
unfolding new_paste
step s (posts label expires max_gets prs body) =
    after_add s (add s (new_paste label expires max_gets prs body))
step s (takes prs now) = (take s prs now).0
step s (dels prs) = (del s prs).0
step s clears = clear s
step s (sweeps now) = sweep s now

unfoldable pub run : Store → List Op → Store
unfolding step
run s [] = s
run s (o ∷ os) = run (step s o) os

abbrev pub hit : Bool → Option (List ℕ) → ℕ
hit true (some b) = 1
hit true none = 0
hit false o = 0

-- 1 if the step hands out the payload stored under the key.
unfoldable pub serves : Text → Store → Op → ℕ
serves k s (posts label expires max_gets prs body) = 0
serves k s (takes prs now) = hit (text_eq (paste_key prs) k) (take s prs now).1
serves k s (dels prs) = 0
serves k s clears = 0
serves k s (sweeps now) = 0

-- How often a history hands it out.
unfoldable pub served : Text → Store → List Op → ℕ
unfolding serves step
served k s [] = 0
served k s (o ∷ os) = serves k s o + served k (step s o) os
