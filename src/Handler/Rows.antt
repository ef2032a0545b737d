-- ===== src/Handler/Rows.antt =====
-- The rows of the dashboard, as ListMetrics of internal/handler/handler.go makes and sorts them.
use go_yandex_practicum_metr.Prelude.{
  String, ◌==◌, Bool, not, none, some, List, [], ◌∷◌, if◌then◌else◌,
}
use text.Mathlib.Text.{is_lt}
use Prim.Native.String.{compare}
use go_yandex_practicum_metr.GoMap.{GoMap}
use go_yandex_practicum_metr.GoText.{cut}

-- MetricView: one row of the dashboard
pub record MetricView : Type 0 where
  pub kind : String
  pub name : String
  pub value : String

-- the strict order that sort.Slice is given
abbrev pub row_less : MetricView → MetricView → Bool
row_less a b =
    if not (a.kind == b.kind) then is_lt (compare a.kind b.kind) else is_lt (compare a.name b.name)

-- sort.Slice, by insertion
unfoldable pub insert_row : MetricView → List MetricView → List MetricView
insert_row v [] = v ∷ []
insert_row v (w ∷ rows) = if row_less w v then w ∷ insert_row v rows else v ∷ w ∷ rows

unfoldable pub sort_rows : List MetricView → List MetricView
sort_rows [] = []
sort_rows (v ∷ rows) = insert_row v (sort_rows rows)

-- the loop of ListMetrics: a key is cut at its first '/'
unfoldable pub rows_of : GoMap String → List MetricView
rows_of [] = []
rows_of ((key, val) ∷ m) = elim (cut 47 key) [
  | none ↦ rows_of m
  | some (kind, name) ↦ record { kind = kind; name = name; value = val } ∷ rows_of m
]
