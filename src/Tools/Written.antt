-- ===== src/Tools/Written.antt =====
-- Where the file lands that a tool of python/oneiro/tools.py writes.
use mathlib.Core.Path.{subst}
use mathlib.Core.Option.{some-injective}
use oneiro_ostis.Prelude.{
  String, ◌≡◌, ◌≢◌, refl, sym, ap, ◌∙◌, Bool, true, false, not, Option, none, some, List, [], ◌∷◌,
  Result, ok, err, ◌>>◌, ◌==◌, string_comparable, require, any, >>=-eq-ok, Bool-cases, eq_iff, inl,
  inr, if◌then◌else◌,
}
use oneiro_ostis.Tools.Schema.{ToolError}
use oneiro_ostis.Tools.Paths.{
  FilePath, Files, below, is_internal, is_within, inside_or_not, in_folder, below_or_fail,
  or_unresolved, or_homeless, Unresolved, os_error, value_error, is_secret, unless_secret, readable,
  candidate, resolves_inside, declared_write_effect, in_workspace, write_target,
}

-- A guard that a value passed.
guarded :
    {A : Type 0} (b : Bool) (e : ToolError) (a got : A)
    → (require (not b) e >> ok a) ≡ ok got
    → (b ≡ false) × (got ≡ a)
guarded true e a got h = cc
guarded false e a got h = (refl, cc)

-- A path below the working folder, not the folder itself, through no internal directory.
abbrev pub Protected : FilePath → FilePath → Type 0
Protected base target =
    (rest : List String) × (below base.parts target.parts ≡ some rest)
    × (rest ≢ [])
    × (any is_internal rest ≡ false)

in_folder-Protected :
    (target got : FilePath) (rest : List String)
    → in_folder target rest ≡ ok got
    → (got ≡ target) × (rest ≢ []) × (any is_internal rest ≡ false)
unfolding in_folder
in_folder-Protected target got [] h = cc
in_folder-Protected target got (p ∷ ps) h =
    let (clear, same) = guarded (any is_internal (p ∷ ps)) _ target got h in
    (same, (λ e. cc), clear)

below_or_fail-Protected :
    (base target got : FilePath) (o : Option (List String))
    → below base.parts target.parts ≡ o
    → below_or_fail target o ≡ ok got
    → (got ≡ target) × Protected base target
unfolding below_or_fail
below_or_fail-Protected base target got none e h = cc
below_or_fail-Protected base target got (some rest) e h =
    let (same, strict, clear) = in_folder-Protected target got rest h in
    (same, (rest, e, strict, clear))

or_unresolved-ok :
    (o : Result Unresolved FilePath) (p : FilePath) → or_unresolved o ≡ ok p → o ≡ ok p
unfolding or_unresolved
or_unresolved-ok (err os_error) p h = cc
or_unresolved-ok (err value_error) p h = cc
or_unresolved-ok (ok q) p h = cc

or_homeless-some : (o : Option FilePath) (p : FilePath) → or_homeless o ≡ ok p → o ≡ some p
unfolding or_homeless
or_homeless-some none p h = cc
or_homeless-some (some q) p h = cc

module _ (files : Files) (root : FilePath) (path : String) where
  open files use {path_of, text_of, expanduser, resolve}

  -- What the path that is asked for is read back and resolved as, which names no credential file.
  abbrev pub OpensAs : FilePath → FilePath → Type 0
  OpensAs asked target =
      (again : FilePath) × (expanduser (path_of (text_of asked)) ≡ some again)
      × (resolve again ≡ ok target)
      × (any (is_secret files) target.parts ≡ false)

  -- The path that the write opens is the one that was asked for, resolved.
  abbrev pub Resolves : FilePath → Type 0
  Resolves target =
      (asked : FilePath) × (candidate files root path ≡ ok asked) × OpensAs asked target

  readable-OpensAs :
      (asked target : FilePath) → readable files (text_of asked) ≡ ok target → OpensAs asked target
  unfolding readable unless_secret
  readable-OpensAs asked target h =
      let (again, expanded, rest) = >>=-eq-ok _ _ h in
      let (found, there, open_one) = >>=-eq-ok _ _ rest in
      let (clear, same) = guarded (any (is_secret files) found.parts) _ found target open_one in
      let at_found : OpensAs asked found =
        (again, or_homeless-some _ again expanded, or_unresolved-ok _ found there, clear) in
      subst (OpensAs asked) (sym same) at_found

  in_workspace-Protected :
      (found got : FilePath)
      → in_workspace files root "workspace_write" found ≡ ok got
      → (got ≡ found) × ((base : FilePath) × (resolve root ≡ ok base) × Protected base found)
  unfolding in_workspace
  in_workspace-Protected found got h =
      let (base, there, rest) = >>=-eq-ok _ _ h in
      let (same, protected) = below_or_fail-Protected base found got _ refl rest in
      (same, (base, or_unresolved-ok _ base there, protected))

  -- A write inside the working folder that is not refused opens the path that was asked for, resolved;
  -- it names no credential file, and lies strictly below the resolved folder, outside the
  -- internal directories.
  pub write_target-Protected :
      (target : FilePath)
      → write_target files root path "workspace_write" ≡ ok target
      → Resolves target × ((base : FilePath) × (resolve root ≡ ok base) × Protected base target)
  unfolding write_target
  write_target-Protected target h =
      let (asked, named, opened) = >>=-eq-ok _ _ h in
      let (found, there, rest) = >>=-eq-ok _ _ opened in
      let (same, protected) = in_workspace-Protected found target rest in
      subst (λ t. Resolves t × ((base : FilePath) × (resolve root ≡ ok base) × Protected base t))
        (sym same) ((asked, named, readable-OpensAs asked found there), protected)

  in_workspace-same :
      (effect : String) (found got : FilePath)
      → in_workspace files root effect found ≡ ok got
      → got ≡ found
  unfolding in_workspace
  in_workspace-same effect found got h = elim (Bool-cases (effect == "workspace_write")) [
    | inl e ↦
        let (same, protected) = in_workspace-Protected found got (
          subst (λ t. in_workspace files root t found ≡ ok got)
            ((eq_iff effect "workspace_write").0 e) h) in
        same
    | inr e ↦ let left : ok found ≡ ok got = rw e at h in cc
  ]

  declared_effect :
      (b : Bool)
      → (◌==◌ {T = String} (if b then "workspace_write" else "write_outside") "workspace_write") ≡ b
  declared_effect true = refl
  declared_effect false = refl

  -- The write opens a file inside the resolved folder exactly when the effect that the policy judged
  -- says so: for a root that is resolved with or without its user's name expanded, and a file
  -- system where the text of the path that is asked for is read back as that path.
  pub write_target-declared :
      (base home asked again target : FilePath) (effect : String)
      → resolve root ≡ ok base
      → expanduser root ≡ some home
      → resolve home ≡ ok base
      → candidate files root path ≡ ok asked
      → expanduser (path_of (text_of asked)) ≡ some again
      → resolve again ≡ resolve asked
      → declared_write_effect files (some root) path ≡ ok effect
      → write_target files root path effect ≡ ok target
      → (effect == "workspace_write") ≡ is_within base target
  unfolding write_target declared_write_effect resolves_inside
  write_target-declared base home asked again target effect rooted homed based named read reread d
        h =
      let (found, there, rest) = >>=-eq-ok _ _ (rw named at h) in
      let (again', read', opened, clear) = readable-OpensAs asked found there in
      let same_path : again ≡ again' = some-injective again again' (sym read ∙ read') in
      let resolved : resolve asked ≡ ok found = sym reread ∙ ap resolve same_path ∙ opened in
      let inside : ok (if is_within base found then "workspace_write" else "write_outside")
          ≡ ok effect =
        unfold inside_or_not or_homeless in rw (named, homed, based, resolved) at d in
      let effect_is : (if is_within base found then "workspace_write" else "write_outside")
          ≡ effect =
        cc in
      ap (λ e. e == "workspace_write") (sym effect_is)
      ∙ declared_effect (is_within base found)
      ∙ ap (is_within base) (sym (in_workspace-same effect found target rest))
