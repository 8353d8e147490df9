-- ===== src/Repositories/Json.antt =====
-- What pg_call.py and pg_tool_execution.py use of orjson and of a JSON column.
use mathlib.Core.Option
use event_driven_ai_voice.Prelude.{Option, Text, none, refl, some, ◌≡◌}

-- `dumps` and `loads` are orjson's; `loads` is none where it raises. `column` is the text that a column
-- gives back for a text that went through `::jsonb` into it. The law is the documentation's: a column
-- keeps the value, whatever it does to the spelling.
pub record JsonColumn (Json : Type 0) : Type 0 where
  pub dumps : Json → Text
  pub column : Text → Text
  pub loads : Text → Option Json
  pub loads-dumps : (j : Json) → loads (column (dumps j)) ≡ some j

module _ {Json : Type 0} (codec : JsonColumn Json) where
  unfoldable pub json_or_none : Option Json → Option Text
  json_or_none none = none
  json_or_none (some value) = some (codec.dumps value)

  -- `orjson.loads(x) if x is not None else None`
  unfoldable pub loads_or_none : Option Text → Option (Option Json)
  loads_or_none none = some none
  loads_or_none (some t) = Option.map some (codec.loads t)

  pub loads-json_or_none :
      (o : Option Json) → loads_or_none (Option.map codec.column (json_or_none o)) ≡ some o
  unfolding json_or_none loads_or_none
  loads-json_or_none none = refl
  loads-json_or_none (some j) = rw (codec.loads-dumps j) refl
