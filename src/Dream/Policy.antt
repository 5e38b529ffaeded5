-- ===== src/Dream/Policy.antt =====
-- python/oneiro/dream/policy.py: a candidate program over the knobs of one turn.
use oneiro_ostis.Prelude.{
  ℕ, String, ◌≡◌, ◌↔◌, refl, Bool, true, false, not, List, [], ◌∷◌, Result, ok, err, ◌>>=◌, ◌==◌,
  string_comparable, nat_comparable, nat_beq, contains, keep_if, All, Bool-cases, inl, inr, arith,
  if◌then◌else◌,
}
use oneiro_ostis.Prelude.Text.{is_blank}

-- The knobs, in the order of `KNOBS`; `FIELDS` has the name in front of them.
pub data Knob : Type 0 where
  history_messages context_chars max_turns include_facts observation_chars : Knob

-- The fields of `TurnPolicy`.
pub record TurnPolicy : Type 0 where
  pub name : String
  pub history_messages : ℕ
  pub context_chars : ℕ
  pub max_turns : ℕ
  pub include_facts : Bool
  pub observation_chars : ℕ

-- A value of a descriptor: what `check` tells apart of Python's values.
pub data Value : Type 0 where
  text : String → Value
  whole : ℕ → Value
  flag : Bool → Value
  other : Value

pub data PolicyError : Type 0 where
  nameless : PolicyError
  bad_count bad_flag : Knob → PolicyError
  unknown_fields : List String → PolicyError
  unknown_candidate : String → PolicyError

unfoldable pub knob_name : Knob → String
knob_name history_messages = "history_messages"
knob_name context_chars = "context_chars"
knob_name max_turns = "max_turns"
knob_name include_facts = "include_facts"
knob_name observation_chars = "observation_chars"

-- `BASE`: the defaults.
abbrev pub recorded : TurnPolicy
recorded = record {
  name = "recorded";
  history_messages = 10;
  context_chars = 6000;
  max_turns = 12;
  include_facts = true;
  observation_chars = 4000;
}

-- `VARIANTS`
unfoldable pub get_policy : String → Result PolicyError TurnPolicy
get_policy name =
    if name == "recorded"
    then ok recorded
    else if name == "blind"
    then ok (record recorded { name = "blind"; include_facts = false })
    else if name == "windowed"
    then ok (record recorded { name = "windowed"; history_messages = 4 })
    else if name == "no_history"
    then ok (record recorded { name = "no_history"; history_messages = 0; context_chars = 0 })
    else if name == "tight_context"
    then ok (record recorded { name = "tight_context"; context_chars = 2000 })
    else if name == "long_turn"
    then ok (record recorded { name = "long_turn"; max_turns = 20 })
    else if name == "terse_observations"
    then ok (record recorded { name = "terse_observations"; observation_chars = 800 })
    else err (unknown_candidate name)

abbrev pub Descriptor : Type 0
Descriptor = List (String × Value)

-- `descriptor`
unfoldable pub descriptor : TurnPolicy → Descriptor
descriptor p =
    ("name", text p.name)
    ∷ ("history_messages", whole p.history_messages)
    ∷ ("context_chars", whole p.context_chars)
    ∷ ("max_turns", whole p.max_turns)
    ∷ ("include_facts", flag p.include_facts)
    ∷ ("observation_chars", whole p.observation_chars)
    ∷ []

-- `data[field]`, or the default of a field that is not there
unfoldable pub field_of : String → Value → Descriptor → Value
field_of name default [] = default
field_of name default ((key, v) ∷ rest) =
    let later = field_of name default rest in if key == name then v else later

unfoldable pub as_name : Value → Result PolicyError String
as_name (text s) = if is_blank s then err nameless else ok s
as_name _ = err nameless

unfoldable pub as_count : Knob → Value → Result PolicyError ℕ
as_count k (whole n) = ok n
as_count k _ = err (bad_count k)

unfoldable pub as_flag : Value → Result PolicyError Bool
as_flag (flag b) = ok b
as_flag _ = err (bad_flag include_facts)

abbrev pub field_names : List String
field_names =
    "name" ∷ "history_messages" ∷ "context_chars" ∷ "max_turns" ∷ "include_facts"
    ∷ "observation_chars" ∷ []

unfoldable pub unknown_keys : Descriptor → List String
unknown_keys [] = []
unknown_keys ((key, v) ∷ rest) =
    let later = unknown_keys rest in if contains field_names key then later else key ∷ later

-- The constructor with its `check`, which reads the counts before the flag.
unfoldable pub build : Descriptor → Result PolicyError TurnPolicy
unfolding field_of as_name as_count as_flag
build d = as_name (field_of "name" (text "recorded") d) >>= λ name.
    as_count history_messages (field_of "history_messages" (whole 10) d) >>= λ messages.
    as_count context_chars (field_of "context_chars" (whole 6000) d) >>= λ context.
    as_count max_turns (field_of "max_turns" (whole 12) d) >>= λ turns.
    as_count observation_chars (field_of "observation_chars" (whole 4000) d) >>= λ observed.
    as_flag (field_of "include_facts" (flag true) d) >>= λ facts. ok record {
      name = name;
      history_messages = messages;
      context_chars = context;
      max_turns = turns;
      include_facts = facts;
      observation_chars = observed;
    }

unfoldable pub if_known : List String → Descriptor → Result PolicyError TurnPolicy
unfolding build
if_known [] d = build d
if_known (k ∷ ks) d = err (unknown_fields (k ∷ ks))

-- `from_descriptor`
unfoldable pub from_descriptor : Descriptor → Result PolicyError TurnPolicy
unfolding if_known unknown_keys
from_descriptor d = if_known (unknown_keys d) d

unfoldable pub same_flag : Bool → Bool → Bool
same_flag true b = b
same_flag false b = not b

unfoldable pub differs : TurnPolicy → TurnPolicy → Knob → Bool
unfolding same_flag
differs p q history_messages = not (nat_beq p.history_messages q.history_messages)
differs p q context_chars = not (nat_beq p.context_chars q.context_chars)
differs p q max_turns = not (nat_beq p.max_turns q.max_turns)
differs p q include_facts = not (same_flag p.include_facts q.include_facts)
differs p q observation_chars = not (nat_beq p.observation_chars q.observation_chars)

-- `changed_fields`
unfoldable pub changed_fields : TurnPolicy → TurnPolicy → List Knob
unfolding differs
changed_fields p q =
    keep_if (differs p q)
      (history_messages ∷ context_chars ∷ max_turns ∷ include_facts ∷ observation_chars ∷ [])

-- A candidate with a name that is not blank is read back from its descriptor.
from_descriptor-descriptor :
    (p : TurnPolicy) → is_blank p.name ≡ false → from_descriptor (descriptor p) ≡ ok p
unfolding from_descriptor descriptor
from_descriptor-descriptor p named = rw named refl

keep_if-nil : (p : Knob → Bool) (ks : List Knob) → (keep_if p ks ≡ []) ↔ All (λ k. p k ≡ false) ks
keep_if-nil p [] = (λ h. tt, λ h. refl)
keep_if-nil p (k ∷ ks) =
    let (to, from) = keep_if-nil p ks in
    (
      λ h. elim (Bool-cases (p k)) [ inl e ↦ ground arith | inr e ↦ (e, to (rw e at h)) ],
      λ (e, h). rw e (from h),
    )

same_flag_iff : (a b : Bool) → (not (same_flag a b) ≡ false) ↔ (a ≡ b)
unfolding same_flag
same_flag_iff true b = ground arith
same_flag_iff false b = ground arith

same_count_iff : (a b : ℕ) → (not (nat_beq a b) ≡ false) ↔ (a ≡ b)
same_count_iff a b = ground arith

-- `changed_fields` reports nothing exactly when the two candidates agree in every knob, whatever
-- their names are.
pub changed_fields_iff :
    (p q : TurnPolicy)
    → (changed_fields p q ≡ []) ↔ (
        (p.history_messages ≡ q.history_messages)
        × (p.context_chars ≡ q.context_chars)
        × (p.max_turns ≡ q.max_turns)
        × (p.include_facts ≡ q.include_facts)
        × (p.observation_chars ≡ q.observation_chars))
unfolding changed_fields
changed_fields_iff p q =
    let (to, from) =
      keep_if-nil (differs p q)
        (history_messages ∷ context_chars ∷ max_turns ∷ include_facts ∷ observation_chars ∷ []) in
    let (a, a') = same_count_iff p.history_messages q.history_messages in
    let (b, b') = same_count_iff p.context_chars q.context_chars in
    let (c, c') = same_count_iff p.max_turns q.max_turns in
    let (d, d') = same_flag_iff p.include_facts q.include_facts in
    let (e, e') = same_count_iff p.observation_chars q.observation_chars in
    (
      λ h. let (k, (l, (m, (n, (o, _))))) = to h in (a k, b l, c m, d n, e o),
      λ (k, l, m, n, o). from (a' k, (b' l, (c' m, (d' n, (e' o, tt))))),
    )
