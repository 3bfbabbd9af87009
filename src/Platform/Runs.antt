-- ===== src/Platform/Runs.antt =====
-- An uninstall and a build (uninstall.go, version.go).
use tp.Prelude.{◌≡◌, refl, List, [], ◌∷◌, ◌++◌, true, false, ◌||◌, Option, none, some}
use tp.Prelude.Text.{Text, codes, text_eq}
use tp.Code.{Unicode, lower, trim_space, trim_left, trim_right, is_space}
use tp.Platform.Build.{read_build_info, to_string}
use tp.Platform.Paths.{
  Env, xdg_path, xdg_dir, data_dir, runtime_dir, confirm_removal, cmd_uninstall, Among,
  cmd_uninstall_complete,
}

abbrev ascii : Unicode
ascii = record { lower_rune = λ r. r; is_space_rune = λ r. false }

abbrev slashed : List Text → Text
slashed [] = []
slashed (p ∷ ps) = b'/' ∷ (p ++ slashed ps)

abbrev env : Env
env = record {
  getenv = λ name. [];
  home = some (codes "me");
  join_path = slashed;
  mkdir_all = λ dir. true;
}

abbrev self_path : Text
self_path = codes "/bin/tp"

abbrev no_links : Text → Option Text
no_links path = none

abbrev answer : Option Text
answer = some (codes "Yes")

confirmed : (false || confirm_removal ascii answer) ≡ true
unfolding confirm_removal lower trim_space trim_left trim_right is_space text_eq
confirmed = refl

data_known : data_dir env ≡ some (codes "//me/.local/share/tp")
unfolding data_dir xdg_dir xdg_path
data_known = refl

runtime_known : runtime_dir env ≡ some (codes "//me/.local/state/tp")
unfolding xdg_dir xdg_path
runtime_known = refl

cmd_uninstall_complete_example :
    Among
      (codes "//me/.local/share/tp")
      (cmd_uninstall ascii env (some self_path) no_links false answer)
    × Among
        (codes "//me/.local/state/tp")
        (cmd_uninstall ascii env (some self_path) no_links false answer)
cmd_uninstall_complete_example =
    cmd_uninstall_complete ascii env (some self_path) no_links false answer
      (codes "//me/.local/share/tp") (codes "//me/.local/state/tp") confirmed data_known
      runtime_known

release :
    to_string (read_build_info (codes "v1") none) (codes "go") (codes "linux") (codes "arm")
    ≡ codes "tp v1\ngo linux/arm\n"
unfolding to_string read_build_info
release = refl
