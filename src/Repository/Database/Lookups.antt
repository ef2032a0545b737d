-- ===== src/Repository/Database/Lookups.antt =====
-- What the statements find in the table, and the whole effect of an upsert on the view.
use go_yandex_practicum_metr.Prelude.{
  ◌%◌, ◌^◌, String, ◌==◌, eq_iff, true, false, Option, none, some, is_some, [], ◌∷◌, ◌≡◌, ◌⊎◌, inl,
  inr, ◌∙◌, refl, sym, ap, arith, if◌then◌else◌, Bool-cases, Option-cases,
}
use go_yandex_practicum_metr.Int64.{Int64, add}
use go_yandex_practicum_metr.Model.{Float64, Metrics}
use go_yandex_practicum_metr.Repository.Spec.{
  View, sum, set_gauge, add_counter, gauge_metric, counter_metric,
}
use go_yandex_practicum_metr.Repository.Database.{row_metric}
use go_yandex_practicum_metr.Repository.Database.Rows.{
  Row, Table, Change, has_key, add_bigint, add_delta, put_gauge, put_counter, new_delta,
  put_new_delta, upsert_gauge, upsert_counter, find_row,
}
use go_yandex_practicum_metr.Repository.Database.Views.{
  IsRow, IsTable, key_type, key_id, gauge_value, counter_delta, table_view, gauge_value-put_gauge,
  counter_delta-put_gauge, put_gauge-IsTable, put_counter-IsTable, counter_delta-put_counter,
  gauge_value-put_counter, add_bigint-add,
}

-- What a lookup finds of a kind that is stored in the field `get`: no row and nothing in the view,
-- or a row with just that.
abbrev pub IsLookup :
    {A : Type 0}
    → (Row → Option A)
    → (String → A → Metrics)
    → String
    → Option Row
    → Option A
    → Type 0
IsLookup {A} get metric n row stored =
    ((row ≡ none) × (stored ≡ none))
    ⊎ ((r : Row) × (a : A) × (row ≡ some r)
        × (get r ≡ some a)
        × (stored ≡ some a)
        × (row_metric r ≡ metric n a))

present : {A : Type 0} → (o : Option A) → is_some o ≡ true → (a : A) × (o ≡ some a)
present none e = cc
present (some a) e = (a, refl)

-- The row of a counter, and what the view has of it.
pub find_row-counter :
    (n : String) (t : Table)
    → IsTable t
    → IsLookup (λ r. r.delta) counter_metric n (find_row n "counter" t) (counter_delta n t)
unfolding find_row counter_delta
find_row-counter n [] h = inl (refl, refl)
find_row-counter n (r ∷ rows) (hr, h) = elim (Bool-cases (has_key n "counter" r)) [
  | inl here ↦ rw here (inr (here_counter n r hr here))
  | inr other ↦ rw other (find_row-counter n rows h)
]
  where
    here_counter :
        (n : String) (r : Row)
        → IsRow r
        → has_key n "counter" r ≡ true
        → (q : Row) × (a : Int64) × (some r ≡ some q)
          × (q.delta ≡ some a)
          × (r.delta ≡ some a)
          × (row_metric q ≡ counter_metric n a)
    here_counter n r (inl (g, d, v)) e =
        let clash : false ≡ true =
          sym (ap (λ t. t == "counter") g) ∙ key_type r.id r.mtype "counter" n e in
        cc
    here_counter n r (inr (c, v, d)) e =
        let (a, is) = present r.delta d in
        let named : r.id ≡ n = key_id r.id r.mtype "counter" n e in (r, a, refl, is, is, cc)

-- The row of a gauge, and what the view has of it.
pub find_row-gauge :
    (n : String) (t : Table)
    → IsTable t
    → IsLookup (λ r. r.value) gauge_metric n (find_row n "gauge" t) (gauge_value n t)
unfolding find_row gauge_value
find_row-gauge n [] h = inl (refl, refl)
find_row-gauge n (r ∷ rows) (hr, h) = elim (Bool-cases (has_key n "gauge" r)) [
  | inl here ↦ rw here (inr (here_gauge n r hr here))
  | inr other ↦ rw other (find_row-gauge n rows h)
]
  where
    here_gauge :
        (n : String) (r : Row)
        → IsRow r
        → has_key n "gauge" r ≡ true
        → (q : Row) × (a : Float64) × (some r ≡ some q)
          × (q.value ≡ some a)
          × (r.value ≡ some a)
          × (row_metric q ≡ gauge_metric n a)
    here_gauge n r (inr (c, v, d)) e =
        let clash : false ≡ true =
          sym (ap (λ t. t == "gauge") c) ∙ key_type r.id r.mtype "gauge" n e in
        cc
    here_gauge n r (inl (g, d, v)) e =
        let (a, is) = present r.value v in
        let named : r.id ≡ n = key_id r.id r.mtype "gauge" n e in (r, a, refl, is, is, cc)

-- A statement without an error leaves rows that the program writes, and has this effect on them.
abbrev pub HasEffect : Change → (View → View) → Type 0
HasEffect change effect =
    (t u : Table)
    → IsTable t
    → change t ≡ some u
    → IsTable u × (table_view u ≡ effect (table_view t))

pub upsert_gauge-HasEffect :
    (n : String) (v : Float64) → HasEffect (upsert_gauge n v) (set_gauge n v)
unfolding upsert_gauge
upsert_gauge-HasEffect n v t u h e =
    let same : put_gauge n v t ≡ u = cc in
    rw (sym same) (
      put_gauge-IsTable n v t h,
      λ i. record {
        gauge = λ k. gauge_value-put_gauge k n v t i;
        counter = λ k. counter_delta-put_gauge k n v t i;
      },
    )

added :
    (c d : Int64) (o : Option Int64)
    → add_delta (some c) d ≡ some o
    → (a : Int64) × (o ≡ some a) × (sum (some c) (some d) ≡ some a)
unfolding sum
added c d o e = elim (Option-cases (add_bigint c d)) [
  | inl overflow ↦
      let clash : none ≡ some o =
        sym (ap (λ x. elim x [ none ↦ none | some s ↦ some (some s) ]) overflow) ∙ e in
      cc
  | inr (s, fits) ↦
      let same : some (some s) ≡ some o =
        sym (ap (λ x. elim x [ none ↦ none | some s ↦ some (some s) ]) fits) ∙ e in
      (s, cc, ap some (sym (add_bigint-add c d s fits)))
]

-- The new count is the sum of the old one and the delta.
new_delta-sum :
    (n : String) (d : Int64) (t : Table) (o : Option Int64)
    → IsTable t
    → new_delta d (find_row n "counter" t) ≡ some o
    → (a : Int64) × (o ≡ some a) × (sum (counter_delta n t) (some d) ≡ some a)
unfolding sum add
new_delta-sum n d t o h e = by_row (find_row-counter n t h)
  where
    by_row :
        IsLookup (λ r. r.delta) counter_metric n (find_row n "counter" t) (counter_delta n t)
        → (a : Int64) × (o ≡ some a) × (sum (counter_delta n t) (some d) ≡ some a)
    by_row (inl (missing, unset)) =
        let same : some (some (d % 2 ^ 64)) ≡ some o = sym (ap (new_delta d) missing) ∙ e in
        rw unset (d % 2 ^ 64, cc, ground arith)
    by_row (inr (r, c, here, delta, is, m)) =
        let old : add_delta r.delta d ≡ some o = sym (ap (new_delta d) here) ∙ e in
        rw is (added c d o (sym (ap (λ x. add_delta x d) delta) ∙ old))

put_new_delta-some :
    (n : String) (t u : Table) (o : Option (Option Int64))
    → put_new_delta n t o ≡ some u
    → (delta : Option Int64) × (o ≡ some delta) × (put_counter n delta t ≡ u)
put_new_delta-some n t u none e = cc
put_new_delta-some n t u (some delta) e = (delta, refl, cc)

if_same :
    (n k : String) (a d : Int64) (t : Table)
    → sum (counter_delta n t) (some d) ≡ some a
    → (if n == k then some a else counter_delta k t)
      ≡ (if n == k then sum (counter_delta k t) (some d) else counter_delta k t)
if_same n k a d t e = ground (arith, eq_iff n k)

pub upsert_counter-HasEffect :
    (n : String) (d : Int64) → HasEffect (upsert_counter n d) (add_counter n d)
unfolding upsert_counter
upsert_counter-HasEffect n d t u h e =
    let (delta, new, same) = put_new_delta-some n t u (new_delta d (find_row n "counter" t)) e in
    let (a, is, total) = new_delta-sum n d t delta h new in
    let stored : put_counter n (some a) t ≡ u = sym (ap (λ x. put_counter n x t) is) ∙ same in
    rw (sym stored) (
      put_counter-IsTable n a t h,
      λ i. record {
        gauge = λ k. gauge_value-put_counter k n (some a) t i;
        counter = λ k. (counter_delta-put_counter k n (some a) t ∙ if_same n k a d t total) i;
      },
    )
