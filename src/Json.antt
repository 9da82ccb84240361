-- ===== src/Json.antt =====
-- What the program takes from serde_json: values that are read from bytes or text, and JSON pointers.
use ticker_cash.Prelude.{Option, Result}
use ticker_cash.Bytes.{Bytes}
use ticker_cash.Text.{Text}

-- `Value::String`, `Value::Number` as its exact text, and any other value.
pub data Node : Type 0 where
  string number : Text → Node
  other : Node

pub record Json : Type 1 where
  pub Value : Type 0
  -- `from_slice`, with the text of its error
  pub from_slice : Bytes → Result Text Value
  -- `Value::pointer`
  pub pointer : Value → Text → Option Value
  pub node : Value → Node
