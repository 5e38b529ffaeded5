-- ===== src/Tools/Opened.antt =====
-- What an approval changes in an answer of the policy of python/oneiro/tools.py.
use oneiro_ostis.Prelude.{
  String, ◌≡◌, ◌≢◌, ◌⊎◌, inl, inr, refl, Bool, true, false, not, ◌&&◌, Option, none, some, Result,
  ok, err, ◌>>=◌, ◌==◌, string_comparable, Bool-cases, arith, if◌then◌else◌,
}
use oneiro_ostis.Tools.Schema.{Given, Arguments, ToolError, validate}
use oneiro_ostis.Tools.{
  Tool, Policy, Decision, allow, ask, deny, Verdict, decision, by_default, unless_approved,
  unless_offline, unless_refused, role_may, effect_for, check_effect, check,
}

-- A call that no approval opens: it is refused, or its arguments raise an error.
abbrev pub Blocked : Result ToolError Verdict → Type 0
Blocked (err e) = Unit
Blocked (ok (d, reason)) = d ≡ deny

abbrev pub approval : Verdict
approval = (allow, "owner approved this exact call")

-- What an approval makes of a verdict.
abbrev pub Opens : Result ToolError Verdict → Result ToolError Verdict → Type 0
Opens before after =
    ((before ≡ after) × Blocked after)
    ⊎ ((v : Verdict) × (before ≡ ok v) × (v.0 ≢ deny) × (after ≡ ok approval))

if-Opens :
    (b : Bool) (v w : Verdict) (reason : String)
    → Opens (ok v) (ok w)
    → Opens (ok (if b then (deny, reason) else v)) (ok (if b then (deny, reason) else w))
if-Opens true v w reason h = inl (refl, refl)
if-Opens false v w reason h = h

by_default-open : (effect : String) (trusted_url : Bool) → (by_default effect trusted_url).0 ≢ deny
unfolding by_default
by_default-open effect trusted_url = ground arith

unless_approved-Opens :
    (declared : Option Decision) (effect : String) (trusted_url : Bool)
    → Opens
        (ok (unless_approved declared effect false trusted_url))
        (ok (unless_approved declared effect true trusted_url))
unfolding unless_approved
unless_approved-Opens (some allow) effect trusted_url = inr (_, refl, (λ e. cc), refl)
unless_approved-Opens (some ask) effect trusted_url = inr (_, refl, (λ e. cc), refl)
unless_approved-Opens (some deny) effect trusted_url =
    inr (_, refl, by_default-open effect trusted_url, refl)
unless_approved-Opens none effect trusted_url =
    inr (_, refl, by_default-open effect trusted_url, refl)

unless_refused-Opens :
    (internet : Bool) (declared : Option Decision) (effect : String) (trusted_url : Bool)
    → Opens
        (ok (unless_refused internet declared effect false trusted_url))
        (ok (unless_refused internet declared effect true trusted_url))
unfolding unless_refused unless_offline
unless_refused-Opens internet (some deny) effect trusted_url = inl (refl, refl)
unless_refused-Opens internet (some allow) effect trusted_url =
    if-Opens (effect == "web_read" && not internet) _ _ _
      (unless_approved-Opens (some allow) effect trusted_url)
unless_refused-Opens internet (some ask) effect trusted_url =
    if-Opens (effect == "web_read" && not internet) _ _ _
      (unless_approved-Opens (some ask) effect trusted_url)
unless_refused-Opens internet none effect trusted_url =
    if-Opens (effect == "web_read" && not internet) _ _ _
      (unless_approved-Opens none effect trusted_url)

module _ {H : Type 0} (p : Policy) (t : Tool H) (role : String) where
  check_effect-Opens :
      (effect : String) (trusted_url : Bool)
      → Opens
          (ok (check_effect p t role effect false trusted_url))
          (ok (check_effect p t role effect true trusted_url))
  unfolding check_effect
  check_effect-Opens effect trusted_url = if-Opens (not (role_may role t effect)) _ _ _ (
      if-Opens (effect == "autostart") _ _ _
        (unless_refused-Opens p.internet_enabled (decision p effect) effect trusted_url))

  derived-Opens :
      (derived : Result ToolError String) (trusted_url : Bool)
      → Opens
          (derived >>= λ effect. ok (check_effect p t role effect false trusted_url))
          (derived >>= λ effect. ok (check_effect p t role effect true trusted_url))
  derived-Opens (err e) trusted_url = inl (refl, tt)
  derived-Opens (ok effect) trusted_url = check_effect-Opens effect trusted_url

  valid-Opens :
      (valid : Result ToolError Arguments) (trusted_url : Bool)
      → Opens
          (valid >>= λ arguments. effect_for t arguments >>= λ effect.
            ok (check_effect p t role effect false trusted_url))
          (valid >>= λ arguments.
            effect_for t arguments >>= λ effect. ok (check_effect p t role effect true trusted_url))
  valid-Opens (err e) trusted_url = inl (refl, tt)
  valid-Opens (ok arguments) trusted_url = derived-Opens (effect_for t arguments) trusted_url

  -- The owner's approval of a call cannot open a refusal: a call that is denied, or whose arguments
  -- raise an error, gets the very same answer with the approval; every other call is allowed by it.
  pub check-approved :
      (given : Given) (trusted_url : Bool)
      → Opens (check p t role given false trusted_url) (check p t role given true trusted_url)
  unfolding check
  check-approved given trusted_url = elim (Bool-cases (role_may role t t.effect)) [
    | inl may ↦ rw may (valid-Opens (validate t.name t.properties t.required given) trusted_url)
    | inr barred ↦ rw barred (inl (refl, refl))
  ]
