-- ===== src/Context.antt =====
-- python/oneiro/recall.py: the owner's facts in force and the messages that a reply is given. What
-- a scan served stands as a `Scan`, or as the error of the read.
pub mod Honest
pub mod Conversations
use Prim.Native.String
use mathlib.Core.List.{reverse, map}
use oneiro_ostis.Prelude.{
  ℕ, zero, suc, ◌+◌, ◌-◌, String, Bool, true, false, not, ◌&&◌, ◌||◌, Option, none, some, List, [],
  ◌∷◌, ◌++◌, Result, ok, err, ◌==◌, string_comparable, ltb, nat_beq, first_of_each, keep_if,
  if◌then◌else◌,
}
use oneiro_ostis.Prelude.Text.{chars, strip, is_blank, join, or_else}
use oneiro_ostis.Store.Graph.{StoreError}
use oneiro_ostis.Records.Base.{
  Base, State, Provenance, completed, is_state, owner_instruction, schema_version,
}
use oneiro_ostis.Records.Kinds.{ConversationMessage}
use oneiro_ostis.Records.Owner.{CuratedFact}
use oneiro_ostis.Recall.{Scan}

-- A stored revision of a fact.
pub record FactRow : Type 0 where
  pub revision : ℕ
  pub fact : CuratedFact

pub record FactView : Type 0 where
  pub newest : FactRow
  pub superseded : List FactRow

pub record FactSet : Type 0 where
  pub facts : List FactView
  pub used_chars : ℕ
  pub complete : Bool
  pub skipped : ℕ
  pub limit_chars : ℕ
  pub history_complete : Bool

unfoldable pub revisions_of : String → List FactRow → List FactRow
revisions_of id rows = keep_if (λ (r : FactRow). r.fact.id == id) rows

unfoldable pub earlier : FactRow → List FactRow → List FactRow
earlier newest rows =
    keep_if
      (λ (r : FactRow). is_state r.fact.state completed && not (r.fact.text == newest.fact.text))
      rows

unfoldable pub in_force : List FactRow → List FactView
unfolding earlier
in_force [] = []
in_force (newest ∷ older) =
    if not (is_state newest.fact.state completed)
    then []
    else record { newest = newest; superseded = earlier newest older } ∷ []

unfoldable pub views_of : List FactRow → List String → List FactView
unfolding in_force revisions_of
views_of rows [] = []
views_of rows (id ∷ ids) = in_force (revisions_of id rows) ++ views_of rows ids

unfoldable pub text_chars : List FactView → ℕ
text_chars [] = 0
text_chars (f ∷ fs) = chars f.newest.fact.text + text_chars fs

abbrev pub fact_id : FactRow → String
fact_id r = r.fact.id

-- `current_facts`, of the scan of the rows of facts, newest first.
unfoldable pub current_facts : Scan FactRow → ℕ → FactSet
unfolding views_of text_chars
current_facts found limit =
    let ids = map fact_id (first_of_each fact_id [] found.rows) in
    let facts = reverse (views_of found.rows ids) in
    record {
      facts = facts;
      used_chars = text_chars facts;
      complete = found.complete;
      skipped = found.skipped;
      limit_chars = limit;
      history_complete = found.complete;
    }

-- `CURATED_CHARS`
abbrev pub curated_chars : ℕ
curated_chars = 2000

-- `fact_text_error`, of a text: whether it is refused.
unfoldable pub fact_text_error : String → Bool
fact_text_error text = is_blank text || ltb curated_chars (chars (strip text))

-- `budget_error`: whether a write of the text is refused. The source subtracts integers.
unfoldable pub budget_error : ℕ → ℕ → String → ℕ → Bool
budget_error used replacing text limit = ltb (limit + replacing) (used + chars (strip text))

-- `new_fact`, of the clock's reading and of an identifier from `new_id`.
unfoldable pub new_fact : String → String → String → String → Option String → State → CuratedFact
new_fact stamp fresh_id id text created_at state = record {
  base = record {
    id = or_else id fresh_id;
    schema_version = schema_version;
    created_at = elim created_at [ none ↦ stamp | some t ↦ or_else t stamp ];
    updated_at = stamp;
    provenance = owner_instruction;
    state = state;
    labels = [];
  };
  text = strip text;
}

-- `history`, of the scan of one conversation.
unfoldable pub history : Scan ConversationMessage → Scan ConversationMessage
history found = record found { rows = reverse found.rows }

pub data Status : Type 0 where
  complete limited memory_unavailable : Status

-- The sentences of `notes`.
pub data Omission : Type 0 where
  facts_unread messages_unread : StoreError → Omission
  facts_partial : Omission
  only_newest over_budget : ℕ → Omission

-- The messages that fit, newest first, and whether the budget left some out.
unfoldable pub fitting : ℕ → ℕ → List ConversationMessage → List ConversationMessage × Bool
fitting budget used [] = ([], false)
fitting budget used (m ∷ ms) =
    let (kept, cut) = fitting budget (used + chars m.text) ms in
    if ltb budget (used + chars m.text) then ([], true) else (m ∷ kept, cut)

-- The status, the notes and the texts of the facts.
unfoldable pub facts_part : Result StoreError FactSet → Status × List Omission × List String
facts_part (err e) = (memory_unavailable, facts_unread e ∷ [], [])
facts_part (ok f) =
    let texts = map (λ (v : FactView). v.newest.fact.text) f.facts in
    if not f.complete || not (nat_beq f.skipped 0)
    then (limited, facts_partial ∷ [], texts)
    else (complete, [], texts)

-- The status, the notes and the messages, oldest first, after the status and the notes so far.
unfoldable pub history_part :
    ℕ
    → ℕ
    → Status
    → List Omission
    → Result StoreError (Scan ConversationMessage)
    → Status × List Omission × List ConversationMessage
unfolding fitting
history_part limit budget status notes (err e) =
    (memory_unavailable, notes ++ messages_unread e ∷ [], [])
history_part limit budget status notes (ok found) =
    let status' = if not found.complete then limited else status in
    let notes' = if not found.complete then notes ++ only_newest limit ∷ [] else notes in
    let (kept, cut) = fitting budget 0 (reverse found.rows) in
    if cut
    then (limited, notes' ++ over_budget budget ∷ [], reverse kept)
    else (status', notes', reverse kept)

pub record ChatMessage : Type 0 where
  pub role : String
  pub content : String

unfoldable pub facts_message : List String → List ChatMessage
facts_message [] = []
facts_message (t ∷ ts) =
    record {
      role = "system";
      content =
          String.◌++◌
            "Facts the owner stated and asked you to keep in mind. They are the owner's own statements, not verified observations:\n"
            (join "\n" (map (λ text. String.◌++◌ "- " text) (t ∷ ts)));
    }
    ∷ []

unfoldable pub chat_message : ConversationMessage → ChatMessage
chat_message m = record {
  role = if m.role == "owner" then "user" else "assistant";
  content = m.text;
}

pub record Report : Type 0 where
  pub status : Status
  pub facts : List String
  pub history : List ConversationMessage
  pub notes : List Omission

unfoldable pub report_of :
    ℕ → ℕ → Result StoreError FactSet → Result StoreError (Scan ConversationMessage) → Report
unfolding facts_part history_part
report_of limit budget facts found =
    let (status, notes, texts) = facts_part facts in
    let (status', notes', rows) = history_part limit budget status notes found in
    record { status = status'; facts = texts; history = rows; notes = notes' }

-- `reply_context`: the messages and the report.
unfoldable pub reply_context :
    ℕ
    → ℕ
    → Result StoreError FactSet
    → Result StoreError (Scan ConversationMessage)
    → List ChatMessage × Report
unfolding report_of facts_message chat_message
reply_context limit budget facts found =
    let r = report_of limit budget facts found in
    (facts_message r.facts ++ map chat_message r.history, r)
