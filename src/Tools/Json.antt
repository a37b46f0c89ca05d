-- ===== src/Tools/Json.antt =====
-- What the tools use of serde_json, which is not the repository's code: a value of JSON is opaque.
use agnx.Common.{String, Bool, Option}

pub record Json (V : Type 0) : Type 0 where
  -- `Value::get`
  pub get : V → String → Option V
  -- `==` of values
  pub eq : V → V → Bool
  -- `from_str(s).ok()`
  pub from_str : String → Option V
  -- `Value::default()`
  pub null : V
  -- `Value::Object(Default::default())`
  pub object : V
  -- `Value::Bool(true)`
  pub true_value : V
  -- The field `action` of `from_str::<ActionArgs>(s)`, if the text has that form and the field.
  pub action : String → Option String
  -- The field `command` of `from_str::<BashArgs>(s)`, if the text has that form.
  pub command : String → Option String
