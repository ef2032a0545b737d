-- ===== src/Repository/Database/Rows.antt =====
-- The table `metrics` of migrations/sql/000001_create_metrics_table.up.sql, without the column
-- updated_at, which no statement reads, and the statements of internal/repository/db.go on it.
use go_yandex_practicum_metr.Prelude.{
  ◌%◌, ◌^◌, String, ◌==◌, Bool, not, ◌&&◌, ◌||◌, leb, Option, none, some, List, [], ◌∷◌,
  if◌then◌else◌,
}
use go_yandex_practicum_metr.Int64.{Int64, add}
use go_yandex_practicum_metr.Model.{Float64, counter_type, gauge_type}

-- One row; a NULL is `none`.
pub record Row : Type 0 where
  pub id : String
  pub mtype : String
  pub delta : Option Int64
  pub value : Option Float64

abbrev pub Table : Type 0
Table = List Row

-- A statement on the rows; `none` is an error of the server.
abbrev pub Change : Type 0
Change = Table → Option Table

-- the primary key (id, mtype)
abbrev pub has_key : String → String → Row → Bool
has_key n t r = r.id == n && r.mtype == t

abbrev pub is_negative : Int64 → Bool
is_negative a = leb (2 ^ 63) a

-- `+` on BIGINT: an error where the sum does not fit, NULL where a term is
unfoldable pub add_bigint : Int64 → Int64 → Option Int64
add_bigint a b =
    if (is_negative a && is_negative b && not (is_negative (add a b)))
      || (not (is_negative a) && not (is_negative b) && is_negative (add a b))
    then none
    else some (add a b)

-- `metrics.delta + EXCLUDED.delta`
abbrev pub add_delta : Option Int64 → Int64 → Option (Option Int64)
add_delta none d = some none
add_delta (some c) d = elim (add_bigint c d) [ none ↦ none | some s ↦ some (some s) ]

-- the rows that INSERT INTO metrics (id, mtype, value) … DO UPDATE SET value = EXCLUDED.value leaves
unfoldable pub put_gauge : String → Float64 → Table → Table
put_gauge n v [] = record { id = n; mtype = gauge_type; delta = none; value = some v } ∷ []
put_gauge n v (r ∷ rows) =
    if has_key n gauge_type r then record r { value = some v } ∷ rows else r ∷ put_gauge n v rows

unfoldable pub upsert_gauge : String → Float64 → Change
upsert_gauge n v t = some (put_gauge n v t)

-- SELECT … WHERE id = $1 AND mtype = $2
unfoldable pub find_row : String → String → Table → Option Row
find_row n t [] = none
find_row n t (r ∷ rows) = if has_key n t r then some r else find_row n t rows

-- the rows that INSERT INTO metrics (id, mtype, delta) leaves, where `delta` is what it inserts or,
-- on a conflict, what it sets
unfoldable pub put_counter : String → Option Int64 → Table → Table
put_counter n delta [] = record { id = n; mtype = counter_type; delta = delta; value = none } ∷ []
put_counter n delta (r ∷ rows) =
    if has_key n counter_type r
    then record r { delta = delta } ∷ rows
    else r ∷ put_counter n delta rows

-- `delta`, or `metrics.delta + EXCLUDED.delta` on a conflict; an int64 is stored as its bit pattern
abbrev pub new_delta : Int64 → Option Row → Option (Option Int64)
new_delta d none = some (some (d % 2 ^ 64))
new_delta d (some r) = add_delta r.delta d

abbrev pub put_new_delta : String → Table → Option (Option Int64) → Option Table
put_new_delta n t none = none
put_new_delta n t (some delta) = some (put_counter n delta t)

unfoldable pub upsert_counter : String → Int64 → Change
upsert_counter n d t = put_new_delta n t (new_delta d (find_row n counter_type t))
