-- ===== src/Tools.antt =====
-- python/oneiro/tools.py: the tools that the agent may call and the policy that bounds them. The
-- type `H` is that of the handlers; nothing here calls one.
pub mod Effects
pub mod Schema
pub mod Boundaries
pub mod Opened
pub mod Reviewed
pub mod Reasons
pub mod Paths
pub mod Written
use Prim.Native.String
use oneiro_ostis.Prelude.{
  String, Bool, true, false, not, ◌&&◌, ◌||◌, Option, none, some, List, [], ◌∷◌, Result, ok, err,
  ◌>>=◌, ◌>>◌, ◌==◌, string_comparable, require, contains, all, keep_if, if◌then◌else◌,
}
use Effects.{all_roles, effects, sensitive, role_effects, get}
use Schema.{
  Properties, Arguments, Given, ToolError, unreviewed, beyond_roles, undeclared, is_nil, validate,
}

pub record Tool (H : Type 0) : Type 0 where
  pub name : String
  pub description : String
  pub properties : Properties
  pub required : List String
  pub roles : List String
  pub effect : String
  pub handler : Option H
  pub effect_of : Option (Arguments → String)

pub data Decision : Type 0 where
  allow ask deny : Decision

-- The decision and its reason.
abbrev pub Verdict : Type 0
Verdict = Decision × String

-- `Policy`: the owner's choice for each effect, and whether the network may be read.
pub record Policy : Type 0 where
  pub decisions : List (String × String)
  pub internet_enabled : Bool

abbrev named : String → Option Decision
named word =
    if word == "allow"
    then some allow
    else if word == "ask"
    then some ask
    else if word == "deny"
    then some deny
    else none

unfoldable pub declared_as : Option String → Option Decision
declared_as none = none
declared_as (some word) = named word

-- `Policy.decision`: none for an effect without one of the three words.
unfoldable pub decision : Policy → String → Option Decision
unfolding declared_as get
decision p effect = declared_as (get effect p.decisions)

-- `self.effect_of(dict(arguments or {}))`, which has to be a declared effect.
unfoldable pub derived_effect :
    String → String → Option (Arguments → String) → Arguments → Result ToolError String
derived_effect name effect none arguments = ok effect
derived_effect name effect (some derive) arguments =
    require (contains effects (derive arguments)) (undeclared name (derive arguments))
    >> ok (derive arguments)

abbrev needs_confirmation : String → Verdict
needs_confirmation effect = (ask, String.◌++◌ effect " needs the owner's confirmation")

-- The reviewed defaults, for an effect without a declared decision.
unfoldable pub by_default : String → Bool → Verdict
by_default effect trusted_url =
    if contains sensitive effect
    then needs_confirmation effect
    else if effect == "web_read" && not trusted_url
    then (ask, "confirm this exact outbound URL")
    else (allow, "within the configured local permissions")

unfoldable pub unless_approved : Option Decision → String → Bool → Bool → Verdict
unfolding by_default
unless_approved declared effect true trusted_url = (allow, "owner approved this exact call")
unless_approved (some ask) effect false trusted_url = needs_confirmation effect
unless_approved (some allow) effect false trusted_url =
    (allow, "allowed by the configured permissions")
unless_approved (some deny) effect false trusted_url = by_default effect trusted_url
unless_approved none effect false trusted_url = by_default effect trusted_url

unfoldable pub unless_offline : Bool → Option Decision → String → Bool → Bool → Verdict
unfolding unless_approved
unless_offline internet declared effect approved trusted_url =
    if effect == "web_read" && not internet
    then (deny, "internet access is disabled")
    else unless_approved declared effect approved trusted_url

abbrev role_refused : String → String → Verdict
role_refused role effect =
    (deny, String.◌++◌ "the " (String.◌++◌ role (String.◌++◌ " role may not use " effect)))

unfoldable pub unless_refused : Bool → Option Decision → String → Bool → Bool → Verdict
unfolding unless_offline
unless_refused internet (some deny) effect approved trusted_url =
    (deny, String.◌++◌ effect " is refused by the configured permissions")
unless_refused internet declared effect approved trusted_url =
    unless_offline internet declared effect approved trusted_url

module _ {H : Type 0} where
  -- `__post_init__`
  unfoldable pub post_init : Tool H → Result ToolError (Unit {0})
  unfolding is_nil role_effects
  post_init t = do
    require (contains effects t.effect && not (is_nil t.roles) && all (contains all_roles) t.roles)
        (unreviewed t.name)
    require (all (λ role. contains (role_effects role) t.effect) t.roles) (beyond_roles t.name)

  unfoldable pub effect_for : Tool H → Arguments → Result ToolError String
  unfolding derived_effect
  effect_for t arguments = derived_effect t.name t.effect t.effect_of arguments

  -- `role_may` of one effect
  unfoldable pub role_may : String → Tool H → String → Bool
  unfolding role_effects
  role_may role t effect = contains t.roles role && contains (role_effects role) effect

  -- `check`, of the exact effect of the call.
  unfoldable pub check_effect : Policy → Tool H → String → String → Bool → Bool → Verdict
  unfolding role_may unless_refused decision
  check_effect p t role effect approved trusted_url =
      if not (role_may role t effect)
      then role_refused role effect
      else if effect == "autostart"
      then (deny, "autostart is disabled")
      else unless_refused p.internet_enabled (decision p effect) effect approved trusted_url

  -- `check`
  unfoldable pub check : Policy → Tool H → String → Given → Bool → Bool → Result ToolError Verdict
  unfolding role_may effect_for check_effect
  check p t role given approved trusted_url =
      if not (role_may role t t.effect)
      then ok (role_refused role t.effect)
      else validate t.name t.properties t.required given >>= λ arguments.
          effect_for t arguments >>= λ effect.
          ok (check_effect p t role effect approved trusted_url)

  -- `for_role`
  unfoldable pub for_role : List (String × Tool H) → String → List (String × Tool H)
  unfolding role_may
  for_role registry role =
      keep_if (λ (entry : String × Tool H). role_may role entry.1 entry.1.effect) registry
