-- ===== src/Tests/Tools.antt =====
-- The tools and their policy at concrete inputs.
use Prim.Native.String.{String}
use oneiro_ostis.Prelude.{
  ◌≡◌, ◌↔◌, refl, true, false, none, some, [], ◌∷◌, ok, ◌==◌, string_comparable,
}
use oneiro_ostis.Prelude.Json.{text}
use oneiro_ostis.Prelude.Text.{strip, lstrip, rstrip, is_space, is_empty, join}
use oneiro_ostis.Schedule.Text.{split_on}
use oneiro_ostis.Tools.Schema.{Given, dictionary}
use oneiro_ostis.Tools.{Tool, Policy, allow, check, role_may}
use oneiro_ostis.Tools.Boundaries.{check-allow_iff, Acts, Passed}
use oneiro_ostis.Tools.Opened.{check-approved, Opens}
use oneiro_ostis.Tools.Paths.{
  FilePath, Files, starts_with, ends_with, is_internal, below, is_within, inside_or_not, in_folder,
  below_or_fail, or_unresolved, or_homeless, joined, is_secret, unless_secret, readable, candidate,
  resolves_inside, declared_write_effect, in_workspace, write_target,
}
use oneiro_ostis.Tools.Written.{Resolves, Protected, write_target-Protected, write_target-declared}

-- A file system without links or home folders, on paths in lower case.
abbrev pub plain_files : Files
plain_files = record {
  path_of = λ s. record { is_absolute = starts_with "/" s; parts = split_on "/" s };
  text_of = λ p. join "/" p.parts;
  expanduser = λ p. some p;
  resolve = λ p. ok p;
  lower = λ s. s;
}

abbrev folder : FilePath
folder = record { is_absolute = true; parts = "" ∷ "w" ∷ [] }

abbrev file : FilePath
file = record { is_absolute = true; parts = "" ∷ "w" ∷ "sub" ∷ "a" ∷ [] }

abbrev pub deleter : Tool (Unit {0})
deleter = record {
  name = "delete_file";
  description = "";
  properties = ("path", record { kind = some "string"; choices = [] }) ∷ [];
  required = "path" ∷ [];
  roles = "executor" ∷ [];
  effect = "delete";
  handler = some tt;
  effect_of = none;
}

abbrev given : Given
given = dictionary (("path", text "a") ∷ [])

abbrev open_policy : Policy
open_policy = record { decisions = ("delete", "allow") ∷ []; internet_enabled = false }

check-allow_iff_example :
    ((reason : String) × (check open_policy deleter "executor" given false false
        ≡ ok (allow, reason)))
    ↔ ((role_may "executor" deleter "delete" ≡ true)
        × ((effect : String) × Acts open_policy deleter "executor" given effect
            × Passed open_policy deleter "executor" effect false false))
check-allow_iff_example = check-allow_iff open_policy deleter "executor" given false false

check-approved_example :
    Opens
      (check open_policy deleter "executor" given false false)
      (check open_policy deleter "executor" given true false)
check-approved_example = check-approved open_policy deleter "executor" given false

written : write_target plain_files folder "sub/a" "workspace_write" ≡ ok file
unfolding write_target candidate joined readable in_workspace strip lstrip rstrip is_space is_empty
    starts_with split_on join or_unresolved or_homeless unless_secret is_secret ends_with
    below_or_fail below in_folder is_internal
written = refl

judged : declared_write_effect plain_files (some folder) "sub/a" ≡ ok "workspace_write"
unfolding declared_write_effect resolves_inside inside_or_not is_within candidate joined or_homeless
    strip lstrip rstrip is_space is_empty starts_with split_on below
judged = refl

named : candidate plain_files folder "sub/a" ≡ ok file
unfolding candidate joined or_homeless strip lstrip rstrip is_space is_empty starts_with split_on
named = refl

reread : some (plain_files.path_of (plain_files.text_of file)) ≡ some file
unfolding starts_with split_on join
reread = refl

write_target-Protected_example :
    Resolves plain_files folder "sub/a" file
    × ((base : FilePath) × (plain_files.resolve folder ≡ ok base) × Protected base file)
write_target-Protected_example = write_target-Protected plain_files folder "sub/a" file written

write_target-declared_example :
    (◌==◌ {T = String} "workspace_write" "workspace_write") ≡ is_within folder file
write_target-declared_example =
    write_target-declared plain_files folder "sub/a" folder folder file file file "workspace_write"
      refl refl refl named reread refl judged written
