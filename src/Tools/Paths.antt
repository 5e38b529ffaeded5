-- ===== src/Tools/Paths.antt =====
-- Where a tool of python/oneiro/tools.py may read and write. The file system and the letters'
-- cases are a parameter.
use Prim.Native.Char.{code}
use Prim.Native.String.{String, [], ◌∷◌}
use oneiro_ostis.Prelude.{
  Bool, true, false, not, ◌&&◌, ◌||◌, Option, none, some, List, Result, ok, err, ◌>>=◌, ◌>>◌, ◌++◌,
  ◌==◌, string_comparable, nat_beq, require, contains, any, if◌then◌else◌,
}
use oneiro_ostis.Prelude.Text.{strip, is_empty}
use oneiro_ostis.Tools.Schema.{
  ToolError, credential_files, working_folder, internal_directory, unresolved, impossible_path,
  no_home, not_below,
}

pub record FilePath : Type 0 where
  pub is_absolute : Bool
  pub parts : List String

-- How `resolve` fails: by an error of the file system or a loop of links (`OSError`,
-- `RuntimeError`), or by a text that no path can have (`ValueError`).
pub data Unresolved : Type 0 where
  os_error value_error : Unresolved

-- What the file system answers: `Path`, `str`, `expanduser` and `resolve` of pathlib, and `lower`.
-- `none` of `expanduser` is the `RuntimeError` for a user without a home.
pub record Files : Type 0 where
  pub path_of : String → FilePath
  pub text_of : FilePath → String
  pub expanduser : FilePath → Option FilePath
  pub resolve : FilePath → Result Unresolved FilePath
  pub lower : String → String

unfoldable pub starts_with : String → String → Bool
starts_with [] s = true
starts_with (c ∷ cs) [] = false
starts_with (c ∷ cs) (d ∷ ds) = nat_beq (code c) (code d) && starts_with cs ds

unfoldable pub ends_with : String → String → Bool
ends_with suffix [] = is_empty suffix
ends_with suffix (c ∷ s) = ((c ∷ s) == suffix) || ends_with suffix s

-- `SECRET_NAMES`
abbrev secret_names : List String
secret_names = List.◌∷◌ ".env" (
    List.◌∷◌ ".env.local" (
      List.◌∷◌ ".env.production"
        (List.◌∷◌ "credentials" (List.◌∷◌ "id_rsa" (List.◌∷◌ "id_ed25519" List.[])))))

-- `INTERNAL_DIRS`
abbrev internal_dirs : List String
internal_dirs = List.◌∷◌ ".git" (List.◌∷◌ ".ssh" (List.◌∷◌ ".runtime" List.[]))

unfoldable pub is_internal : String → Bool
is_internal part = contains internal_dirs part

-- `target.relative_to(base).parts`
unfoldable pub below : List String → List String → Option (List String)
below List.[] parts = some parts
below (List.◌∷◌ b bs) List.[] = none
below (List.◌∷◌ b bs) (List.◌∷◌ p ps) = elim (p == b) [ true ↦ below bs ps | false ↦ none ]

-- `resolved == base or base in resolved.parents`, of resolved paths
unfoldable pub is_within : FilePath → FilePath → Bool
unfolding below
is_within base resolved = elim (below base.parts resolved.parts) [ none ↦ false | some r ↦ true ]

-- The two resolutions of `resolves_inside`, in order, with what it catches.
unfoldable pub inside_or_not :
    Result Unresolved FilePath → Result Unresolved FilePath → Result ToolError Bool
unfolding is_within
inside_or_not (err value_error) base = err impossible_path
inside_or_not (err os_error) base = ok false
inside_or_not (ok resolved) (err value_error) = err impossible_path
inside_or_not (ok resolved) (err os_error) = ok false
inside_or_not (ok resolved) (ok base) = ok (is_within base resolved)

unfoldable pub in_folder : FilePath → List String → Result ToolError FilePath
unfolding is_internal
in_folder target List.[] = err working_folder
in_folder target (List.◌∷◌ p ps) =
    require (not (any is_internal (List.◌∷◌ p ps))) internal_directory >> ok target

-- `target.relative_to(base)`, which raises when the target is not below.
unfoldable pub below_or_fail : FilePath → Option (List String) → Result ToolError FilePath
unfolding in_folder
below_or_fail target none = err not_below
below_or_fail target (some rest) = in_folder target rest

unfoldable pub or_unresolved : Result Unresolved FilePath → Result ToolError FilePath
or_unresolved (err os_error) = err unresolved
or_unresolved (err value_error) = err impossible_path
or_unresolved (ok p) = ok p

unfoldable pub or_homeless : Option FilePath → Result ToolError FilePath
or_homeless none = err no_home
or_homeless (some p) = ok p

module _ (files : Files) where
  open files use {path_of, text_of, expanduser, resolve, lower}

  unfoldable pub is_secret : String → Bool
  unfolding starts_with ends_with
  is_secret part =
      contains secret_names part
      || ends_with ".pem" (lower part)
      || ends_with ".key" (lower part)
      || starts_with ".env." (lower part)

  unfoldable pub unless_secret : FilePath → Result ToolError FilePath
  unfolding is_secret
  unless_secret target = require (not (any is_secret target.parts)) credential_files >> ok target

  -- `readable`
  unfoldable pub readable : String → Result ToolError FilePath
  unfolding or_unresolved or_homeless unless_secret
  readable path =
      or_homeless (expanduser (path_of path)) >>= λ p. or_unresolved (resolve p) >>= unless_secret

  unfoldable pub joined : FilePath → FilePath → Result ToolError FilePath
  unfolding or_homeless
  joined root target =
      if target.is_absolute
      then ok target
      else (or_homeless (expanduser root) >>= λ base.
          ok record { is_absolute = base.is_absolute; parts = base.parts ++ target.parts })

  -- The path that a text names, relative to the working folder.
  unfoldable pub candidate : FilePath → String → Result ToolError FilePath
  unfolding or_homeless joined
  candidate root path =
      let text = strip path in
      (if is_empty text then ok (path_of ".") else or_homeless (expanduser (path_of text)))
      >>= joined root

  -- `resolves_inside`. Its own `try` is around the two resolutions only, and both expansions raise
  -- the one error.
  unfoldable pub resolves_inside : FilePath → String → Result ToolError Bool
  unfolding candidate inside_or_not or_homeless
  resolves_inside root path = candidate root path >>= λ target.
      or_homeless (expanduser root) >>= λ base. inside_or_not (resolve target) (resolve base)

  -- `declared_write_effect`
  unfoldable pub declared_write_effect : Option FilePath → String → Result ToolError String
  unfolding resolves_inside
  declared_write_effect none path = ok "write_outside"
  declared_write_effect (some root) path =
      resolves_inside root path >>= λ b. ok (if b then "workspace_write" else "write_outside")

  unfoldable pub in_workspace : FilePath → String → FilePath → Result ToolError FilePath
  unfolding below_or_fail or_unresolved
  in_workspace root effect target =
      if effect == "workspace_write"
      then (or_unresolved (resolve root) >>= λ base.
          below_or_fail target (below base.parts target.parts))
      else ok target

  -- `write_target`
  unfoldable pub write_target : FilePath → String → String → Result ToolError FilePath
  unfolding candidate readable in_workspace
  write_target root path effect =
      candidate root path >>= λ c. readable (text_of c) >>= in_workspace root effect
