-- ===== src/Interserver/Json.antt =====
-- json_object, get_string and get_dict_value. The parser (lib/JSON_parser.c) is not modelled: its
-- result is what a document is. A number is kept as the text that an ostringstream gives it.
use Prim.Native.String.{◌++◌ as str_append}
use nox13_interserver.Common.{Bool, true, false, Option, none, some, String, if◌then◌else◌}
use text.Mathlib.Text.{◌==◌}
use nox13_interserver.Common.Outcome.{Outcome, ok, undefined}

mutual
  pub data Json : Type 0 where
    null : Json
    number : String → Json
    boolean : Bool → Json
    string : String → Json
    array : Items → Json
    dict : Fields → Json

  pub data Items : Type 0 where
    nil : Items
    cons : Json → Items → Items

  pub data Fields : Type 0 where
    end : Fields
    field : String → Json → Fields → Fields

abbrev join_with : String → String → String → String
join_with a sep b = str_append a (str_append sep b)

-- json_object::get_string, with quotes. The last comma is taken off again, so an empty list keeps
-- its brackets, and an empty dictionary, whose "{" goes instead, reads "}".
unfoldable mutual
  pub get_string : Json → String
  get_string null = "null"
  get_string (number s) = s
  get_string (boolean true) = "true"
  get_string (boolean false) = "false"
  get_string (string s) = str_append "\"" (str_append s "\"")
  get_string (array xs) = str_append "[" (get_items xs)
  get_string (dict fs) = get_fields "{" fs

  pub get_items : Items → String
  get_items nil = "]"
  get_items (cons x xs) = str_append (get_string x) (get_more xs)

  pub get_more : Items → String
  get_more nil = "]"
  get_more (cons x xs) = join_with "," (get_string x) (get_more xs)

  pub get_fields : String → Fields → String
  get_fields open_brace end = "}"
  get_fields open_brace (field k v fs) = str_append open_brace (
      str_append "\""
        (str_append k (str_append "\":" (str_append (get_string v) (get_more_fields fs)))))

  pub get_more_fields : Fields → String
  get_more_fields end = "}"
  get_more_fields (field k v fs) =
      str_append ",\""
        (str_append k (str_append "\":" (str_append (get_string v) (get_more_fields fs))))

-- get_string(true)
unfoldable pub get_string_noquotes : Json → String
unfolding get_string
get_string_noquotes (string s) = s
get_string_noquotes j = get_string j

unfoldable pub find_field : String → Fields → Option Json
find_field k end = none
find_field k (field j v fs) = if j == k then some v else find_field k fs

-- get_dict_value: the cast of what is no dictionary is undefined.
unfoldable pub get_dict_value : String → Json → Outcome (Option Json)
unfolding find_field
get_dict_value k (dict fs) = ok (find_field k fs)
get_dict_value k j = undefined
