-- ===== src/Store/Graph.antt =====
-- python/oneiro/store.py: what the store keeps in the graph, and the graph that it writes to.
-- A link's name hashes the stream, a category and an identifier; it stands here as the category
-- with the identifier, so two links have one name only if they agree in both. A link's JSON text
-- stands as the object it encodes, and a text that is no such object as `unreadable`. The digest
-- of a record is a function of the record and is not kept beside it.
use Prim.Native.Char.{Char, code}
use oneiro_ostis.Prelude.{
  ℕ, String, Bool, true, false, ◌&&◌, ◌||◌, Option, none, some, List, [], ◌∷◌, ◌==◌, nat_beq, leb,
  string_comparable, Comparable, if◌then◌else◌,
}
use oneiro_ostis.Prelude.Text.{chars}

-- `_NAME`: one to 160 letters, digits, or `_ . : -`.
abbrev name_char : Char → Bool
name_char c =
    let n = code c in
    (leb b'a' n && leb n b'z')
    || (leb b'A' n && leb n b'Z')
    || (leb b'0' n && leb n b'9')
    || nat_beq n b'_'
    || nat_beq n b'.'
    || nat_beq n b':'
    || nat_beq n b'-'

name_chars : String → Bool
name_chars String.[] = true
name_chars (String.◌∷◌ c s) = name_char c && name_chars s

unfoldable pub is_name : String → Bool
unfolding name_chars chars
is_name s = name_chars s && leb 1 (chars s) && leb (chars s) 160

pub data Key : Type 0 where
  head_key : Key
  entry_key : String → Key
  current_key : String → Key

abbrev pub key_beq : Key → Key → Bool
key_beq head_key head_key = true
key_beq (entry_key a) (entry_key b) = a == b
key_beq (current_key a) (current_key b) = a == b
key_beq _ _ = false

-- An immutable revision. An entry is named by its operation, so `previous` and
-- `previous_revision` hold the operations of the entries they point to.
pub record Envelope (R : Type 0) : Type 0 where
  pub operation : String
  pub sequence : ℕ
  pub revision : ℕ
  pub previous : Option String
  pub previous_revision : Option String
  pub content : R

pub record Head (R : Type 0) : Type 0 where
  pub tail : Option String
  pub count : ℕ
  pub pending : Option (Envelope R)

-- What the store reads of a record, and what its texts measure. `is_named` says that the record
-- decodes and that its identifier is a name; `is_sound` is the check of `_record`, which decodes it
-- again and wants both of its times to be instants with a zone. `fits` says that the record's JSON
-- is within `MAX_LINK_BYTES`, and `head_fits` says it of a head with what is pending in it.
pub record Content (R : Type 0) : Type 0 where
  pub same : Comparable R
  pub id_of : R → String
  pub kind_of : R → String
  pub created_of : R → String
  pub is_named : R → Bool
  pub fits : R → Bool
  pub is_sound : R → Bool
  pub head_fits : Head R → Bool

pub record Pointer : Type 0 where
  pub entry : String
  pub sequence : ℕ
  pub revision : ℕ

pub data Link (R : Type 0) : Type 0 where
  head : Head R → Link R
  entry : Envelope R → Link R
  pointer : Pointer → Link R
  unreadable : Link R

-- One call of the graph that changes it.
pub data Call (R : Type 0) : Type 0 where
  write : Key → Link R → Call R
  classify : String → String → Call R
  relate : Key → Key → String → Call R

-- The graph: its named links, and the relations drawn so far, newest first.
pub record Graph (R : Type 0) : Type 0 where
  pub read : Key → Option (Link R)
  pub drawn : List (Call R)

-- The codes of `GraphQueryError`. `record_refused` stands for every refusal of the record itself.
pub data StoreError : Type 0 where
  bad_operation record_refused record_unreadable chain_corrupt publication_pending : StoreError
  operation_collision revision_conflict identity_collision record_too_large bad_limit bad_cursor
        scan_truncated :
      StoreError

module _ {R : Type 0} where
  abbrev pub empty_graph : Graph R
  empty_graph = record { read = λ k. none; drawn = [] }

  unfoldable pub perform : Call R → Graph R → Graph R
  perform (write key link) g = record g {
    read = λ k. if key_beq key k then some link else g.read k;
  }
  perform (classify name kind) g = record g { drawn = classify name kind ∷ g.drawn }
  perform (relate source target relation) g = record g {
    drawn = relate source target relation ∷ g.drawn;
  }

  unfoldable pub perform_all : List (Call R) → Graph R → Graph R
  perform_all [] g = g
  perform_all (c ∷ rest) g = perform_all rest (perform c g)
