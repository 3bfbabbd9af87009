-- ===== src/Platform/Paths.antt =====
-- The directories of util.go, and what uninstall.go removes. The environment is a function; filepath.Join is
-- a parameter.
use tp.Prelude.{
  ◌≡◌, List, [], ◌∷◌, ◌++◌, map, Bool, true, false, ◌||◌, Option, none, some, if◌then◌else◌, ◌⊎◌,
  inl, inr, Bool-cases,
}
use tp.Prelude.Text.{Text, codes, text_eq}
use tp.Code.{Unicode, lower, trim_space}

-- os.Getenv, os.UserHomeDir, filepath.Join and os.MkdirAll.
pub record Env : Type 0 where
  pub getenv : Text → Text
  pub home : Option Text
  pub join_path : List Text → Text
  pub mkdir_all : Text → Bool

abbrev in_home : Env → List Text → Option Text → Option Text
in_home e fallback none = none
in_home e fallback (some home) =
    some (e.join_path (e.join_path (home ∷ fallback) ∷ codes "tp" ∷ []))

abbrev xdg_value : Env → List Text → Text → Option Text
xdg_value e fallback [] = in_home e fallback e.home
xdg_value e fallback (c ∷ dir) = some (e.join_path ((c ∷ dir) ∷ codes "tp" ∷ []))

unfoldable pub xdg_path : Env → Text → List Text → Option Text
xdg_path e env fallback = xdg_value e fallback (e.getenv env)

abbrev made : Env → Option Text → Option Text
made e none = none
made e (some dir) = if e.mkdir_all dir then some dir else none

unfoldable pub xdg_dir : Env → Text → List Text → Option Text
unfolding xdg_path
xdg_dir e env fallback = made e (xdg_path e env fallback)

unfoldable pub data_dir : Env → Option Text
unfolding xdg_dir
data_dir e = xdg_dir e (codes "XDG_DATA_HOME") (codes ".local" ∷ codes "share" ∷ [])

abbrev sock_in : Env → Option Text → Option Text
sock_in e none = none
sock_in e (some dir) = some (e.join_path (dir ∷ codes "sock" ∷ []))

unfoldable pub sock_path : Env → Option Text
unfolding xdg_dir
sock_path e = sock_in e (xdg_dir e (codes "XDG_RUNTIME_DIR") (codes ".local" ∷ codes "state" ∷ []))

abbrev listed : Option Text → List Text
listed none = []
listed (some t) = t ∷ []

-- os.Executable, and what filepath.EvalSymlinks makes of it.
abbrev resolved : Option Text → (Text → Option Text) → Option Text
resolved none links = none
resolved (some self) links = elim (links self) [ none ↦ some self | some path ↦ some path ]

unfoldable pub uninstall_targets : Env → Option Text → (Text → Option Text) → List Text
unfolding xdg_path
uninstall_targets e self links =
    listed (resolved self links)
    ++ (listed (xdg_path e (codes "XDG_DATA_HOME") (codes ".local" ∷ codes "share" ∷ []))
        ++ listed (xdg_path e (codes "XDG_RUNTIME_DIR") (codes ".local" ∷ codes "state" ∷ [])))

-- The line read from the terminal, or none.
unfoldable pub confirm_removal : Unicode → Option Text → Bool
confirm_removal u none = false
confirm_removal u (some line) =
    let answer = map (lower u) (trim_space u line) in
    text_eq answer (codes "y") || text_eq answer (codes "yes")

-- The paths that `cmdUninstall` removes; `asked_not` is --yes.
unfoldable pub cmd_uninstall :
    Unicode → Env → Option Text → (Text → Option Text) → Bool → Option Text → List Text
unfolding uninstall_targets confirm_removal
cmd_uninstall u e self links asked_not line =
    if asked_not || confirm_removal u line then uninstall_targets e self links else []

-- The path is one of the list.
abbrev pub Among : Text → List Text → Type 0
Among path [] = ⊥
Among path (t ∷ ts) = (t ≡ path) ⊎ Among path ts

Among-right : (path : Text) (s t : List Text) → Among path t → Among path (s ++ t)
Among-right path [] t h = h
Among-right path (x ∷ s) t h = inr (Among-right path s t h)

Among-left : (path : Text) (s t : List Text) → Among path s → Among path (s ++ t)
Among-left path (x ∷ s) t (inl same) = inl same
Among-left path (x ∷ s) t (inr h) = inr (Among-left path s t h)
Among-left path [] t h = absurd h

made-listed : (e : Env) (o : Option Text) (dir : Text) → made e o ≡ some dir → Among dir (listed o)
made-listed e none dir h = cc
made-listed e (some d) dir h = elim (Bool-cases (e.mkdir_all d)) [
  | inl works ↦ inl (cc (rw works at h))
  | inr fails ↦ absurd (cc (rw fails at h))
]

-- The directory in which the daemon's socket lies.
abbrev pub runtime_dir : Env → Option Text
runtime_dir e = xdg_dir e (codes "XDG_RUNTIME_DIR") (codes ".local" ∷ codes "state" ∷ [])

abbrev data_path_of : Env → Option Text
data_path_of e = xdg_path e (codes "XDG_DATA_HOME") (codes ".local" ∷ codes "share" ∷ [])

-- The targets hold the directory that data_dir returns.
uninstall_targets-data_dir :
    (e : Env) (self : Option Text) (links : Text → Option Text) (path : Text)
    → data_dir e ≡ some path
    → Among path (uninstall_targets e self links)
unfolding uninstall_targets data_dir xdg_dir
uninstall_targets-data_dir e self links path d =
    Among-right path (listed (resolved self links)) _
      (Among-left path (listed (data_path_of e)) _ (made-listed e (data_path_of e) path d))

uninstall_targets-runtime_dir :
    (e : Env) (self : Option Text) (links : Text → Option Text) (path : Text)
    → runtime_dir e ≡ some path
    → Among path (uninstall_targets e self links)
unfolding uninstall_targets xdg_dir
uninstall_targets-runtime_dir e self links path r =
    Among-right path (listed (resolved self links)) _
      (Among-right path (listed (data_path_of e)) _ (made-listed e _ path r))

-- A `tp uninstall` that is confirmed, on the line or by --yes, leaves nothing behind: it removes the
-- directory that holds the identity and the pins and the one that holds the daemon's socket, where tp can
-- use them at all.
pub cmd_uninstall_complete :
    (u : Unicode) (e : Env) (self : Option Text) (links : Text → Option Text) (asked_not : Bool)
    (line : Option Text) (data_path runtime_path : Text)
    → (asked_not || confirm_removal u line) ≡ true
    → data_dir e ≡ some data_path
    → runtime_dir e ≡ some runtime_path
    → Among data_path (cmd_uninstall u e self links asked_not line)
      × Among runtime_path (cmd_uninstall u e self links asked_not line)
unfolding cmd_uninstall
cmd_uninstall_complete u e self links asked_not line data_path runtime_path sure d r = rw sure (
  uninstall_targets-data_dir e self links data_path d,
  uninstall_targets-runtime_dir e self links runtime_path r,
)
