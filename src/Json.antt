-- ===== src/Json.antt =====
-- JSON values, as `serde_json` hands them to the service. A number stands for its text.
use mr_boxington_cache.Prelude.{Bool, Option, none, some, if◌then◌else◌}
use mr_boxington_cache.Prelude.Bytes.{Text}
use mr_boxington_cache.Prelude.Equality.{◌==◌, nat_eq, list_eq}

mutual
  pub data Value : Type 0 where
    null : Value
    boolean : Bool → Value
    number : Text → Value
    string : Text → Value
    array : Values → Value
    object : Fields → Value

  pub data Values : Type 0 where
    nil : Values
    cons : Value → Values → Values

  pub data Fields : Type 0 where
    end : Fields
    field : Text → Value → Fields → Fields

-- `Value::get` by a name: nothing unless the value is an object that has the field.
unfoldable pub field_of : Text → Fields → Option Value
field_of name end = none
field_of name (field key value fields) = if key == name then some value else field_of name fields

unfoldable pub get : Text → Value → Option Value
unfolding field_of
get name (object fields) = field_of name fields
get name _ = none

-- `Value::as_str`
unfoldable pub as_str : Value → Option Text
as_str (string s) = some s
as_str _ = none
