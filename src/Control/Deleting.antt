-- ===== src/Control/Deleting.antt =====
-- What `handleDelete` and `shouldStop` of daemon.go do to what can be fetched.
use tp.Prelude.{ℕ, ◌≡◌, List, true, none, arith, All, if◌then◌else◌}
use tp.Prelude.Text.{Text, text_eq, IsByte}
use tp.Prelude.Maps.{lookup, has_key}
use tp.Hex.{hex_decode-hex_encode}
use tp.Store.{take, paste_key}
use tp.Store.Deleting.{del_lem}
use tp.Control.{Daemon, should_stop, handle_delete}

-- Deleting by the hex form of a secret answers whether a paste with that secret is stored, and
-- removes that paste and no other.
pub handle_delete_lem :
    (d : Daemon) (now : ℕ) (prs : List ℕ) (k : Text)
    → All IsByte prs
    → ((handle_delete d now (paste_key prs)).1 ≡ has_key (paste_key prs) d.store.m)
      × (lookup k (handle_delete d now (paste_key prs)).0.store.m
          ≡ (if text_eq (paste_key prs) k then none else lookup k d.store.m))
unfolding handle_delete paste_key
handle_delete_lem d now prs k h =
    rw (hex_decode-hex_encode prs h) (unfold paste_key in del_lem d.store prs k)

-- A daemon stops by itself only when nothing can be fetched from it, at any time and with any secret.
pub should_stop-take :
    (d : Daemon) (now : ℕ) (prs : List ℕ) (then' : ℕ)
    → should_stop d now ≡ true
    → take d.store prs then' ≡ (d.store, none)
unfolding should_stop take lookup
should_stop-take d now prs then' e = ground arith
