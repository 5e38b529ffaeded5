-- ===== src/Tools/Reasons.antt =====
-- The reasons that the policy of python/oneiro/tools.py gives for a permission.
use oneiro_ostis.Prelude.{
  String, ◌≡◌, refl, Bool, true, false, not, ◌&&◌, Option, none, some, List, [], ◌∷◌, Result, ok,
  err, ◌>>=◌, ◌==◌, string_comparable, contains, if◌then◌else◌,
}
use oneiro_ostis.Tools.Effects.{sensitive}
use oneiro_ostis.Tools.Schema.{Given, Arguments, ToolError, validate}
use oneiro_ostis.Tools.{
  Tool, Policy, Decision, allow, ask, deny, Verdict, decision, by_default, unless_approved,
  unless_offline, unless_refused, role_may, effect_for, check_effect, check,
}

-- The reasons of the three ways to a permission.
abbrev pub reasons : List String
reasons =
    "owner approved this exact call" ∷ "allowed by the configured permissions"
    ∷ "within the configured local permissions" ∷ []

-- An allowed call has one of the three reasons.
abbrev pub Reasoned : Verdict → Type 0
Reasoned (allow, reason) = contains reasons reason ≡ true
Reasoned (ask, reason) = Unit
Reasoned (deny, reason) = Unit

abbrev pub AllReasoned : Result ToolError Verdict → Type 0
AllReasoned (ok v) = Reasoned v
AllReasoned (err e) = Unit

if-Reasoned :
    (b : Bool) (d : Decision) (reason : String) (rest : Verdict)
    → Reasoned (d, reason)
    → Reasoned rest
    → Reasoned (if b then (d, reason) else rest)
if-Reasoned true d reason rest h k = h
if-Reasoned false d reason rest h k = k

by_default-Reasoned :
    (effect : String) (trusted_url : Bool) → Reasoned (by_default effect trusted_url)
unfolding by_default
by_default-Reasoned effect trusted_url =
    if-Reasoned (contains sensitive effect) ask _ _ tt
      (if-Reasoned (effect == "web_read" && not trusted_url) ask _ _ tt refl)

unless_approved-Reasoned :
    (declared : Option Decision) (effect : String) (approved trusted_url : Bool)
    → Reasoned (unless_approved declared effect approved trusted_url)
unfolding unless_approved
unless_approved-Reasoned declared effect true trusted_url = refl
unless_approved-Reasoned (some allow) effect false trusted_url = refl
unless_approved-Reasoned (some ask) effect false trusted_url = tt
unless_approved-Reasoned (some deny) effect false trusted_url =
    by_default-Reasoned effect trusted_url
unless_approved-Reasoned none effect false trusted_url = by_default-Reasoned effect trusted_url

unless_offline-Reasoned :
    (internet : Bool) (declared : Option Decision) (effect : String) (approved trusted_url : Bool)
    → Reasoned (unless_offline internet declared effect approved trusted_url)
unfolding unless_offline
unless_offline-Reasoned internet declared effect approved trusted_url =
    if-Reasoned (effect == "web_read" && not internet) deny _ _ tt
      (unless_approved-Reasoned declared effect approved trusted_url)

unless_refused-Reasoned :
    (internet : Bool) (declared : Option Decision) (effect : String) (approved trusted_url : Bool)
    → Reasoned (unless_refused internet declared effect approved trusted_url)
unfolding unless_refused
unless_refused-Reasoned internet (some deny) effect approved trusted_url = tt
unless_refused-Reasoned internet (some allow) effect approved trusted_url =
    unless_offline-Reasoned internet (some allow) effect approved trusted_url
unless_refused-Reasoned internet (some ask) effect approved trusted_url =
    unless_offline-Reasoned internet (some ask) effect approved trusted_url
unless_refused-Reasoned internet none effect approved trusted_url =
    unless_offline-Reasoned internet none effect approved trusted_url

module _ {H : Type 0} (p : Policy) (t : Tool H) (role : String) (approved trusted_url : Bool) where
  check_effect-Reasoned :
      (effect : String) → Reasoned (check_effect p t role effect approved trusted_url)
  unfolding check_effect
  check_effect-Reasoned effect = if-Reasoned (not (role_may role t effect)) deny _ _ tt (
      if-Reasoned (effect == "autostart") deny _ _ tt (
        unless_refused-Reasoned p.internet_enabled (decision p effect) effect approved trusted_url))

  derived-Reasoned :
      (derived : Result ToolError String)
      → AllReasoned (derived >>= λ effect. ok (check_effect p t role effect approved trusted_url))
  derived-Reasoned (err e) = tt
  derived-Reasoned (ok effect) = check_effect-Reasoned effect

  valid-Reasoned :
      (valid : Result ToolError Arguments)
      → AllReasoned (
          valid >>= λ arguments. effect_for t arguments >>= λ effect.
          ok (check_effect p t role effect approved trusted_url))
  valid-Reasoned (err e) = tt
  valid-Reasoned (ok arguments) = derived-Reasoned (effect_for t arguments)

  may-Reasoned :
      (b : Bool) (reason : String) (rest : Result ToolError Verdict)
      → AllReasoned rest
      → AllReasoned (if b then ok (deny, reason) else rest)
  may-Reasoned true reason rest h = tt
  may-Reasoned false reason rest h = h

  -- The reason of a permission is one of three sentences.
  pub check-Reasoned : (given : Given) → AllReasoned (check p t role given approved trusted_url)
  unfolding check
  check-Reasoned given =
      may-Reasoned (not (role_may role t t.effect)) _ _
        (valid-Reasoned (validate t.name t.properties t.required given))
