-- ===== src/Ingestion/Reads/Normalized.antt =====
-- main.py: the count of normalized items, and the list of the items.
use auditcore.Base.{◌≡◌, List, Bool, true, false, filter, length}
use auditcore.Base.Text.{Text}
use auditcore.Base.Json.{Value, null, int, pos, arr, from_items, index}
use auditcore.Base.Error.{Result, ok, raised}
use auditcore.Base.Exec.Returns.{Returns}
use auditcore.Base.Uuid.{Uuid}
use auditcore.Ingestion.Site.{Site}

not_null : Value → Bool
not_null null = false
not_null _ = true

shows_value : Result Value → Bool
unfolding not_null
shows_value (ok v) = not_null v
shows_value (raised e) = false

-- A listed item has something under `parsed`.
unfoldable pub has_parsed : Value → Bool
unfolding shows_value
has_parsed v = shows_value (index v "parsed")

-- The numbers of the rows that are shown: the normalized ones are those with something under `parsed`.
pub record CountsParsed (summary listed : Value) : Type 0 where
  pub rows : List Value
  pub all_rows : index listed "items" ≡ ok (arr (from_items rows))
  pub counted : index summary "normalized_count" ≡ ok (int (pos (length (filter has_parsed rows))))
