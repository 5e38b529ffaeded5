-- ===== src/Tools/Schema.antt =====
-- The check of a call's arguments against a tool's declared schema, in python/oneiro/tools.py.
use oneiro_ostis.Prelude.{
  String, Bool, true, false, not, ◌&&◌, ◌||◌, ◌==◌, Option, none, some, List, [], ◌∷◌, Result, ok,
  err, ◌>>◌, string_comparable, require, contains, keep_if, if◌then◌else◌,
}
use oneiro_ostis.Prelude.Json.{Json, text, whole, negative, flag, array, object}
use oneiro_ostis.Tools.Effects.{get, keys}

-- The schema of one argument: its type, and the texts of its enumeration, none when there is none.
pub record Property : Type 0 where
  pub kind : Option String
  pub choices : List String

abbrev pub Properties : Type 0
Properties = List (String × Property)

abbrev pub Arguments : Type 0
Arguments = List (String × Json)

-- What a model may hand in: an object, or something else.
pub data Given : Type 0 where
  dictionary : Arguments → Given
  no_dictionary : Given

-- The reasons of `ToolError`, after the name of the tool where the message has it.
pub data ToolError : Type 0 where
  unreviewed beyond_roles not_an_object : String → ToolError
  undeclared : String → String → ToolError
  -- the missing names, then the unexpected ones
  bad_names : String → List String → List String → ToolError
  wrong_type : String → String → Option String → ToolError
  not_a_choice : String → String → List String → ToolError
  -- Python's `KeyError`
  no_property : String → ToolError
  credential_files working_folder internal_directory : ToolError
  -- an `OSError` of the file system, and the `ValueError` of a path that is not below another
  unresolved impossible_path no_home not_below : ToolError

unfoldable pub is_nil {ℓ} : {A : Type ℓ} → List A → Bool
is_nil [] = true
is_nil (x ∷ xs) = false

-- `isinstance` for the types that a schema may name; a Boolean counts as no integer.
abbrev is_text : Json → Bool
is_text (text s) = true
is_text _ = false

abbrev is_integer : Json → Bool
is_integer (whole n) = true
is_integer (negative n) = true
is_integer _ = false

abbrev is_flag : Json → Bool
is_flag (flag b) = true
is_flag _ = false

abbrev is_object : Json → Bool
is_object (object s) = true
is_object _ = false

abbrev is_array : Json → Bool
is_array (array s) = true
is_array _ = false

-- Whether a value has the expected type. A name that is no known type accepts every value.
unfoldable pub has_type : Option String → Json → Bool
has_type none value = true
has_type (some expected) value =
    if expected == "string"
    then is_text value
    else if expected == "integer"
    then is_integer value
    else if expected == "boolean"
    then is_flag value
    else if expected == "object"
    then is_object value
    else if expected == "array"
    then is_array value
    else true

-- `value in choices`
unfoldable pub is_choice : List String → Json → Bool
is_choice choices (text s) = contains choices s
is_choice choices _ = false

-- One round of the loop of `validate`.
unfoldable pub check_value : String → String → Option Property → Json → Result ToolError (Unit {0})
unfolding has_type is_choice is_nil
check_value tool name none value = err (no_property name)
check_value tool name (some p) value = do
  require (has_type p.kind value) (wrong_type tool name p.kind)
  require (is_nil p.choices || is_choice p.choices value) (not_a_choice tool name p.choices)

unfoldable pub check_values : String → Properties → Arguments → Result ToolError (Unit {0})
unfolding check_value get
check_values tool properties [] = ok tt
check_values tool properties ((name, value) ∷ rest) =
    check_value tool name (get name properties) value >> check_values tool properties rest

-- `set(arguments) - set(self.properties)` and `set(self.required) - set(arguments)`
unfoldable pub absent : List String → List String → List String
absent there names = keep_if (λ name. not (contains there name)) names

-- `validate`
unfoldable pub validate : String → Properties → List String → Given → Result ToolError Arguments
unfolding check_values absent is_nil
validate tool properties required no_dictionary = err (not_an_object tool)
validate tool properties required (dictionary arguments) =
    let unknown = absent (keys properties) (keys arguments) in
    let missing = absent (keys arguments) required in
    require (is_nil unknown && is_nil missing) (bad_names tool missing unknown)
    >> check_values tool properties arguments
    >> ok arguments
