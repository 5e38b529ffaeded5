-- ===== src/Context/Conversations.antt =====
-- python/oneiro/recall.py: one summary for each conversation.
use oneiro_ostis.Prelude.{
  ℕ, ◌+◌, String, ◌&&◌, List, [], ◌∷◌, ◌==◌, string_comparable, if◌then◌else◌,
}
use oneiro_ostis.Prelude.Text.{clip, is_empty}
use oneiro_ostis.Records.Kinds.{ConversationMessage}

pub record Summary : Type 0 where
  pub conversation_id : String
  pub last_at : String
  pub messages : ℕ
  pub title : String

unfoldable pub first_summary : ConversationMessage → Summary
first_summary m = record {
  conversation_id = m.conversation_id;
  last_at = m.updated_at;
  messages = 0;
  title = "";
}

-- What one message adds to the summary of its conversation.
unfoldable pub counted_in : ConversationMessage → Summary → Summary
counted_in m s = record s {
  messages = s.messages + 1;
  title = if is_empty s.title && m.role == "owner" then clip 80 m.text else s.title;
}

-- The dictionary of summaries, which keeps the order of their first messages.
unfoldable pub add_message : ConversationMessage → List Summary → List Summary
unfolding first_summary counted_in
add_message m [] = counted_in m (first_summary m) ∷ []
add_message m (s ∷ ss) =
    let rest = add_message m ss in
    if s.conversation_id == m.conversation_id then counted_in m s ∷ ss else s ∷ rest

unfoldable pub summaries_from : List Summary → List ConversationMessage → List Summary
unfolding add_message
summaries_from ss [] = ss
summaries_from ss (m ∷ rows) = summaries_from (add_message m ss) rows

-- The conversations of `conversation_list`, of the messages that one scan serves, newest first.
unfoldable pub conversation_list : List ConversationMessage → List Summary
unfolding summaries_from
conversation_list rows = summaries_from [] rows
