-- ===== src/Platform/Build.antt =====
-- version.go, and the choice of completion.go. A setting is a key and a value, as debug.ReadBuildInfo gives
-- them; `version` is what the release build has set.
use tp.Prelude.{
  List, [], ◌∷◌, ◌++◌, Bool, true, false, not, ◌&&◌, Option, none, some, ltb, if◌then◌else◌, length,
  take,
}
use tp.Prelude.Text.{Text, codes, text_eq}

pub record BuildInfo : Type 0 where
  pub version : Text
  pub commit : Text
  pub date : Text
  pub dirty : Bool

pub record DebugInfo : Type 0 where
  pub main_version : Text
  pub settings : List (Text × Text)

abbrev is_empty : Text → Bool
is_empty [] = true
is_empty (c ∷ t) = false

-- The switch of the loop over the settings.
unfoldable pub read_setting : BuildInfo → Text × Text → BuildInfo
read_setting b s =
    if text_eq s.0 (codes "vcs.revision")
    then record b { commit = s.1 }
    else if text_eq s.0 (codes "vcs.time")
    then record b { date = s.1 }
    else if text_eq s.0 (codes "vcs.modified")
    then record b { dirty = text_eq s.1 (codes "true") }
    else b

unfoldable pub read_settings : BuildInfo → List (Text × Text) → BuildInfo
unfolding read_setting
read_settings b [] = b
read_settings b (s ∷ rest) = read_settings (read_setting b s) rest

abbrev version_or : Text → BuildInfo → BuildInfo
version_or fallback b = if is_empty b.version then record b { version = fallback } else b

abbrev main_or : Text → BuildInfo → BuildInfo
main_or main b =
    if is_empty b.version && (not (is_empty main) && not (text_eq main (codes "(devel)")))
    then record b { version = main }
    else b

unfoldable pub read_build_info : Text → Option DebugInfo → BuildInfo
unfolding read_settings
read_build_info version none =
    version_or (codes "unknown")
      (record { version = version; commit = []; date = []; dirty = false })
read_build_info version (some info) = version_or (codes "devel") (
    read_settings
      (main_or info.main_version
        (record { version = version; commit = []; date = []; dirty = false }))
      info.settings)

-- `buildInfo.String`; the runtime's version, system and architecture are the last arguments.
unfoldable pub to_string : BuildInfo → Text → Text → Text → Text
to_string b go goos goarch =
    let commit = if ltb 12 (length b.commit) then take 12 b.commit else b.commit in
    let dirty = if b.dirty then codes "-dirty" else [] in
    let date = if is_empty b.date then [] else codes ", " ++ b.date in
    let built =
      if is_empty b.commit then [] else codes " (" ++ commit ++ dirty ++ date ++ codes ")" in
    codes "tp "
    ++ b.version
    ++ built
    ++ (10 ∷ go)
    ++ codes " "
    ++ goos
    ++ codes "/"
    ++ goarch
    ++ (10 ∷ [])

pub data Completion : Type 0 where
  bash zsh fish : Completion
  usage : Completion
  unknown_shell : Text → Completion

abbrev shell_script : Text → Completion
shell_script shell =
    if text_eq shell (codes "bash")
    then bash
    else if text_eq shell (codes "zsh")
    then zsh
    else if text_eq shell (codes "fish")
    then fish
    else unknown_shell shell

unfoldable pub cmd_completion : List Text → Completion
cmd_completion [] = usage
cmd_completion (shell ∷ []) = shell_script shell
cmd_completion (a ∷ b ∷ args) = usage
