-- ===== src/Tools/Boundaries.antt =====
-- What the policy of python/oneiro/tools.py lets through, and what an approval can change.
use oneiro_ostis.Prelude.{
  String, ◌≡◌, ◌≢◌, ◌↔◌, ◌⊎◌, inl, inr, refl, ap, ◌∙◌, Bool, true, false, not, ◌&&◌, Option, none,
  some, Result, ok, ◌==◌, string_comparable, contains, >>=-eq-ok, Bool-cases, arith, if◌then◌else◌,
}
use oneiro_ostis.Tools.Effects.{sensitive}
use oneiro_ostis.Tools.Schema.{Given, Arguments, ToolError, validate}
use oneiro_ostis.Tools.{
  Tool, Policy, Decision, allow, ask, deny, Verdict, decision, by_default, unless_approved,
  unless_offline, unless_refused, role_may, effect_for, check_effect, check,
}

-- Why a call needs no question: the owner approved it or declared it allowed, or it has no declared
-- decision and is neither sensitive nor a read of an unconfirmed address.
abbrev pub Released : Option Decision → String → Bool → Bool → Type 0
Released declared effect approved trusted_url =
    (approved ≡ true)
    ⊎ (declared ≡ some allow)
    ⊎ ((declared ≡ none)
        × (contains sensitive effect ≡ false)
        × ((effect == "web_read" && not trusted_url) ≡ false))

-- What an allowed call has passed, for its exact effect.
abbrev pub Passed : {H : Type 0} → Policy → Tool H → String → String → Bool → Bool → Type 0
Passed p t role effect approved trusted_url =
    (role_may role t effect ≡ true)
    × ((effect == "autostart") ≡ false)
    × (decision p effect ≢ some deny)
    × ((effect == "web_read" && not p.internet_enabled) ≡ false)
    × Released (decision p effect) effect approved trusted_url

abbrev pub Allows : Verdict → Type 0
Allows (d, reason) = d ≡ allow

-- A test with a verdict that is no permission is passed exactly when it fails.
if-Allows :
    (b : Bool) (blocked rest : Verdict)
    → ¬ Allows blocked
    → Allows (if b then blocked else rest) ↔ ((b ≡ false) × Allows rest)
if-Allows true blocked rest h = (λ a. absurd (h a), λ (e, a). absurd cc)
if-Allows false blocked rest h = (λ a. (refl, a), λ (e, a). a)

by_default_iff :
    (effect : String) (trusted_url : Bool)
    → Allows (by_default effect trusted_url)
      ↔ ((contains sensitive effect ≡ false) × ((effect == "web_read" && not trusted_url) ≡ false))
unfolding by_default
by_default_iff effect trusted_url =
    let (to, from) = if-Allows (contains sensitive effect) (ask, _) _ (λ e. cc) in
    let (to', from') =
      if-Allows (effect == "web_read" && not trusted_url) (ask, _) (allow, _) (λ e. cc) in
    (
      λ h. let (e, rest) = to h in let (e', done) = to' rest in (e, e'),
      λ (e, e'). from (e, from' (e', refl)),
    )

unless_approved_iff :
    (declared : Option Decision) (effect : String) (approved trusted_url : Bool)
    → declared ≢ some deny
    → Allows (unless_approved declared effect approved trusted_url)
      ↔ Released declared effect approved trusted_url
unfolding unless_approved
unless_approved_iff declared effect true trusted_url h = (λ a. inl refl, λ e. refl)
unless_approved_iff (some allow) effect false trusted_url h = (λ a. inr (inl refl), λ e. refl)
unless_approved_iff (some ask) effect false trusted_url h = (
  λ a. absurd cc,
  λ r. absurd (elim r [ inl e ↦ cc | inr (inl e) ↦ cc | inr (inr (e, _, _)) ↦ cc ]),
)
unless_approved_iff (some deny) effect false trusted_url h = absurd (h refl)
unless_approved_iff none effect false trusted_url h =
    let (to, from) = by_default_iff effect trusted_url in
    (
      λ a. let (e, e') = to a in inr (inr (refl, e, e')),
      λ r. elim r [
        | inl e ↦ absurd cc
        | inr (inl e) ↦ absurd cc
        | inr (inr (none_declared, e, e')) ↦ from (e, e')
      ],
    )

unless_offline_iff :
    (internet : Bool) (declared : Option Decision) (effect : String) (approved trusted_url : Bool)
    → declared ≢ some deny
    → Allows (unless_offline internet declared effect approved trusted_url) ↔ (
        ((effect == "web_read" && not internet) ≡ false)
        × Released declared effect approved trusted_url)
unfolding unless_offline
unless_offline_iff internet declared effect approved trusted_url h =
    let (to, from) =
      if-Allows (effect == "web_read" && not internet) (deny, "internet access is disabled")
        (unless_approved declared effect approved trusted_url) (λ e. cc) in
    let (to', from') = unless_approved_iff declared effect approved trusted_url h in
    (λ a. let (e, rest) = to a in (e, to' rest), λ (e, r). from (e, from' r))

unless_refused_iff :
    (internet : Bool) (declared : Option Decision) (effect : String) (approved trusted_url : Bool)
    → Allows (unless_refused internet declared effect approved trusted_url) ↔ (
        (declared ≢ some deny)
        × ((effect == "web_read" && not internet) ≡ false)
        × Released declared effect approved trusted_url)
unfolding unless_refused
unless_refused_iff internet (some deny) effect approved trusted_url =
    (λ a. absurd cc, λ (h, e, r). absurd (h refl))
unless_refused_iff internet (some allow) effect approved trusted_url =
    let open_one : ◌≢◌ {A = Option Decision} (some allow) (some deny) = λ e. cc in
    let (to, from) =
      unless_offline_iff internet (some allow) effect approved trusted_url open_one in
    (λ a. let (e, r) = to a in (open_one, e, r), λ (h, e, r). from (e, r))
unless_refused_iff internet (some ask) effect approved trusted_url =
    let open_one : ◌≢◌ {A = Option Decision} (some ask) (some deny) = λ e. cc in
    let (to, from) = unless_offline_iff internet (some ask) effect approved trusted_url open_one in
    (λ a. let (e, r) = to a in (open_one, e, r), λ (h, e, r). from (e, r))
unless_refused_iff internet none effect approved trusted_url =
    let open_one : ◌≢◌ {A = Option Decision} none (some deny) = λ e. cc in
    let (to, from) = unless_offline_iff internet none effect approved trusted_url open_one in
    (λ a. let (e, r) = to a in (open_one, e, r), λ (h, e, r). from (e, r))

not-false_iff : (b : Bool) → (not b ≡ false) ↔ (b ≡ true)
not-false_iff true = (λ e. refl, λ e. refl)
not-false_iff false = (λ e. cc, λ e. cc)

not_allowed :
    {reason reason' : String}
    → ¬ ◌≡◌ {A = Result ToolError Verdict} (ok (deny, reason)) (ok (allow, reason'))
not_allowed h = cc

module _ {H : Type 0} (p : Policy) (t : Tool H) (role : String) where
  check_effect_iff :
      (effect : String) (approved trusted_url : Bool)
      → Allows (check_effect p t role effect approved trusted_url)
        ↔ Passed p t role effect approved trusted_url
  unfolding check_effect
  check_effect_iff effect approved trusted_url =
      let (role_to, role_from) = not-false_iff (role_may role t effect) in
      let (to, from) = if-Allows (not (role_may role t effect)) (deny, _) _ (λ e. cc) in
      let (to', from') =
        if-Allows (effect == "autostart") (deny, "autostart is disabled") _ (λ e. cc) in
      let (last_to, last_from) =
        unless_refused_iff p.internet_enabled (decision p effect) effect approved trusted_url in
      (
        λ a.
            let (e, rest) = to a in
            let (e', rest') = to' rest in let (d, w, r) = last_to rest' in (role_to e, e', d, w, r),
        λ (e, e', d, w, r). from (role_from e, from' (e', last_from (d, w, r))),
      )

  -- The call's arguments fit the tool's schema and say what effect the call has.
  abbrev pub Acts : Given → String → Type 0
  Acts given effect =
      (arguments : Arguments) × (validate t.name t.properties t.required given ≡ ok arguments)
      × (effect_for t arguments ≡ ok effect)

  allowed_first :
      (given : Given) (approved trusted_url : Bool) (reason : String)
      → role_may role t t.effect ≡ true
      → check p t role given approved trusted_url ≡ ok (allow, reason)
      → (effect : String) × Acts given effect × Passed p t role effect approved trusted_url
  unfolding check
  allowed_first given approved trusted_url reason may h =
      let (arguments, valid, rest) = >>=-eq-ok _ _ (rw may at h) in
      let (effect, derived, last) = >>=-eq-ok _ _ rest in
      let passed : Allows (check_effect p t role effect approved trusted_url) = grind arith in
      (effect, (arguments, valid, derived), (check_effect_iff effect approved trusted_url).0 passed)

  may_first :
      (given : Given) (approved trusted_url : Bool) (reason : String)
      → check p t role given approved trusted_url ≡ ok (allow, reason)
      → role_may role t t.effect ≡ true
  unfolding check
  may_first given approved trusted_url reason h = elim (Bool-cases (role_may role t t.effect)) [
    | inl may ↦ may
    | inr barred ↦ absurd (not_allowed (rw barred at h))
  ]

  passed-check :
      (given : Given) (approved trusted_url : Bool) (arguments : Arguments) (effect : String)
      → role_may role t t.effect ≡ true
      → validate t.name t.properties t.required given ≡ ok arguments
      → effect_for t arguments ≡ ok effect
      → check p t role given approved trusted_url
        ≡ ok (check_effect p t role effect approved trusted_url)
  unfolding check
  passed-check given approved trusted_url arguments effect may valid derived =
      rw (may, valid, derived) refl

  -- Whatever the owner configured, a call is allowed exactly when the role may use the tool at all,
  -- the arguments fit the tool's schema, and the exact effect that they imply is one of the role's,
  -- is not the start of a service, is not declared refused, does not read the web while the
  -- network is off, and is released: by the owner's approval of this call, by a declared permission
  -- or, when there is no declared decision, by being neither sensitive nor a read of an
  -- unconfirmed address.
  pub check-allow_iff :
      (given : Given) (approved trusted_url : Bool)
      → ((reason : String) × (check p t role given approved trusted_url ≡ ok (allow, reason))) ↔ (
          (role_may role t t.effect ≡ true)
          × ((effect : String) × Acts given effect × Passed p t role effect approved trusted_url))
  check-allow_iff given approved trusted_url = (
    λ (reason, h). (
      may_first given approved trusted_url reason h,
      allowed_first given approved trusted_url reason
          (may_first given approved trusted_url reason h) h,
    ),
    λ (may, (effect, (arguments, valid, derived), passed)). (
      (check_effect p t role effect approved trusted_url).1,
      passed-check given approved trusted_url arguments effect may valid derived
          ∙ ap (λ d. ok (d, (check_effect p t role effect approved trusted_url).1))
              ((check_effect_iff effect approved trusted_url).1 passed),
    ),
  )
