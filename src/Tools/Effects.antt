-- ===== src/Tools/Effects.antt =====
-- The effect vocabulary of python/oneiro/tools.py and the tables beside it.
use oneiro_ostis.Prelude.{
  String, true, false, not, Option, none, some, List, [], ◌∷◌, ◌==◌, string_comparable, contains,
  keep_if, if◌then◌else◌,
}

-- `ROLES`
abbrev pub all_roles : List String
all_roles = "manager" ∷ "researcher" ∷ "executor" ∷ []

-- `EFFECTS`
abbrev pub effects : List String
effects =
    "read" ∷ "note" ∷ "coordinate" ∷ "workspace_write" ∷ "write_outside" ∷ "web_read" ∷ "configure"
    ∷ "delete" ∷ "database" ∷ "sandbox" ∷ "install" ∷ "publish" ∷ "send" ∷ "upload" ∷ "autostart"
    ∷ "mcp_call" ∷ []

-- `SENSITIVE`
abbrev pub sensitive : List String
sensitive =
    "configure" ∷ "delete" ∷ "database" ∷ "sandbox" ∷ "install" ∷ "publish" ∷ "send" ∷ "upload"
    ∷ "mcp_call" ∷ "write_outside" ∷ []

-- `ROLE_EFFECTS.get(role, set())`
unfoldable pub role_effects : String → List String
role_effects role =
    if role == "manager"
    then "read" ∷ "note" ∷ "coordinate" ∷ "web_read" ∷ "mcp_call" ∷ []
    else if role == "researcher"
    then "read" ∷ "note" ∷ "web_read" ∷ "mcp_call" ∷ []
    else if role == "executor"
    then keep_if (λ effect. not (contains ("coordinate" ∷ "autostart" ∷ []) effect)) effects
    else []

-- `EFFECT_SETTINGS`
abbrev pub effect_settings : List (String × String)
effect_settings =
    ("web_read", "permissions.web_read")
    ∷ ("workspace_write", "permissions.write_workspace")
    ∷ ("write_outside", "permissions.write_outside")
    ∷ ("delete", "permissions.delete")
    ∷ ("install", "permissions.install")
    ∷ ("mcp_call", "permissions.exec")
    ∷ ("send", "permissions.send_publish")
    ∷ ("publish", "permissions.send_publish")
    ∷ ("upload", "permissions.send_publish")
    ∷ []

-- `EFFECTS_WITHOUT_SETTING`
abbrev pub effects_without_setting : List String
effects_without_setting =
    "read" ∷ "note" ∷ "coordinate" ∷ "configure" ∷ "database" ∷ "sandbox" ∷ "autostart" ∷ []

-- `mapping.get(key)` of a mapping that holds a key once
unfoldable pub get {ℓ} : {A : Type ℓ} → String → List (String × A) → Option A
get key [] = none
get key ((k, value) ∷ rest) = elim (k == key) [ true ↦ some value | false ↦ get key rest ]

abbrev pub keys {ℓ} : {A : Type ℓ} → List (String × A) → List String
keys [] = []
keys ((k, value) ∷ rest) = k ∷ keys rest
