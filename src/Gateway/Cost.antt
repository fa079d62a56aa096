-- ===== src/Gateway/Cost.antt =====
-- cost.py: the price of a call.
use auditcore.Base.{ℕ, if◌then◌else◌}
use auditcore.Base.Json.{Value, null, float, finite, obj, end, get_or, truthy}
use auditcore.Base.Error.{Result, ok, ◌>>=◌}
use auditcore.Base.Text.{Text}
use auditcore.Base.{false}

-- Floats: the operations that the price of a call needs.
pub record FloatOps (F : Type 0) : Type 0 where
  pub zero : F
  pub million : F
  pub add : F → F → F
  -- of an int and a number of the table; a value that is no number raises
  pub times : ℕ → Value → Result F
  pub divide : F → F → F

-- `0.0`
abbrev zero_rate : Value
zero_rate = float (finite 0 0 false)

-- `d.get(k)` for a key that is a text
abbrev pub TextLookup : Type 0
TextLookup = Text → Value → Value → Result Value

module _ {F : Type 0} (ops : FloatOps F) (get_text : TextLookup) (table : Value) where
  priced : Value → ℕ → ℕ → Result F
  priced rates input_tokens output_tokens = do
    input_rate ← get_or rates "input_per_1m" zero_rate
    input ← ops.times input_tokens input_rate
    output_rate ← get_or rates "output_per_1m" zero_rate
    output ← ops.times output_tokens output_rate
    ok (ops.add (ops.divide input ops.million) (ops.divide output ops.million))

  -- CostBook.cost_usd
  unfoldable pub cost_usd : Text → Text → ℕ → ℕ → Result F
  unfolding priced
  cost_usd provider model input_tokens output_tokens = do
    models ← get_text provider table (obj end)
    rates ← get_text model models null
    if truthy rates then priced rates input_tokens output_tokens else ok ops.zero
