-- ===== src/Repository/Database/Views.antt =====
-- What a client reads from the table, and what the statements do to it.
use go_yandex_practicum_metr.Prelude.{
  String, ◌==◌, eq_iff, true, false, ◌&&◌, Option, none, some, is_some, [], ◌∷◌, All, ◌≡◌, ◌⊎◌, inl,
  inr, ◌∙◌, refl, sym, ap, arith, if◌then◌else◌, Bool-cases,
}
use go_yandex_practicum_metr.Int64.{Int64, add}
use go_yandex_practicum_metr.Model.{Float64, counter_type, gauge_type}
use go_yandex_practicum_metr.Repository.Spec.{View}
use go_yandex_practicum_metr.Repository.Database.Rows.{
  Row, Table, has_key, add_bigint, put_gauge, put_counter,
}

unfoldable pub gauge_value : String → Table → Option Float64
gauge_value k [] = none
gauge_value k (r ∷ rows) = if has_key k gauge_type r then r.value else gauge_value k rows

unfoldable pub counter_delta : String → Table → Option Int64
counter_delta k [] = none
counter_delta k (r ∷ rows) = if has_key k counter_type r then r.delta else counter_delta k rows

abbrev pub table_view : Table → View
table_view t = record { gauge = λ k. gauge_value k t; counter = λ k. counter_delta k t }

-- A row that the program wrote: a gauge with a value alone, or a counter with a delta alone.
abbrev pub IsRow : Row → Type 0
IsRow r =
    ((r.mtype ≡ "gauge") × (r.delta ≡ none) × (is_some r.value ≡ true))
    ⊎ ((r.mtype ≡ "counter") × (r.value ≡ none) × (is_some r.delta ≡ true))

abbrev pub IsTable : Table → Type 0
IsTable = All IsRow

pub gauge_value-put_gauge :
    (k n : String) (v : Float64) (t : Table)
    → gauge_value k (put_gauge n v t) ≡ (if n == k then some v else gauge_value k t)
unfolding gauge_value put_gauge
gauge_value-put_gauge k n v [] = ground (arith, eq_iff n k)
gauge_value-put_gauge k n v (r ∷ rows) =
    ground (arith, gauge_value-put_gauge k n v rows, eq_iff r.id n, eq_iff r.id k, eq_iff n k)

pub counter_delta-put_gauge :
    (k n : String) (v : Float64) (t : Table) → counter_delta k (put_gauge n v t) ≡ counter_delta k t
unfolding counter_delta put_gauge
counter_delta-put_gauge k n v [] = ground arith
counter_delta-put_gauge k n v (r ∷ rows) =
    ground
      (arith, counter_delta-put_gauge k n v rows, eq_iff r.mtype "gauge", eq_iff r.mtype "counter")

pub key_type : (i t u n : String) → (i == n && t == u) ≡ true → (t == u) ≡ true
key_type i t u n e = ground (arith, eq_iff t u)

pub key_id : (i t u n : String) → (i == n && t == u) ≡ true → i ≡ n
key_id i t u n e = ground (arith, eq_iff i n)

set_value-IsRow :
    (n : String) (v : Float64) (r : Row)
    → IsRow r
    → has_key n gauge_type r ≡ true
    → IsRow (record r { value = some v })
set_value-IsRow n v r (inl (g, d, h)) e = inl (g, d, refl)
set_value-IsRow n v r (inr (c, d, h)) e =
    let clash : false ≡ true = sym (ap (λ t. t == "gauge") c) ∙ key_type r.id r.mtype "gauge" n e in
    cc

set_delta-IsRow :
    (n : String) (d : Int64) (r : Row)
    → IsRow r
    → has_key n counter_type r ≡ true
    → IsRow (record r { delta = some d })
set_delta-IsRow n d r (inl (g, h, v)) e =
    let clash : false ≡ true =
      sym (ap (λ t. t == "counter") g) ∙ key_type r.id r.mtype "counter" n e in
    cc
set_delta-IsRow n d r (inr (c, v, h)) e = inr (c, v, refl)

pub put_gauge-IsTable :
    (n : String) (v : Float64) (t : Table) → IsTable t → IsTable (put_gauge n v t)
unfolding put_gauge
put_gauge-IsTable n v [] h = (inl (refl, refl, refl), tt)
put_gauge-IsTable n v (r ∷ rows) (hr, h) = elim (Bool-cases (has_key n gauge_type r)) [
  | inl here ↦ rw here (set_value-IsRow n v r hr here, h)
  | inr other ↦ rw other (hr, put_gauge-IsTable n v rows h)
]

pub put_counter-IsTable :
    (n : String) (d : Int64) (t : Table) → IsTable t → IsTable (put_counter n (some d) t)
unfolding put_counter
put_counter-IsTable n d [] h = (inr (refl, refl, refl), tt)
put_counter-IsTable n d (r ∷ rows) (hr, h) = elim (Bool-cases (has_key n counter_type r)) [
  | inl here ↦ rw here (set_delta-IsRow n d r hr here, h)
  | inr other ↦ rw other (hr, put_counter-IsTable n d rows h)
]

pub counter_delta-put_counter :
    (k n : String) (d : Option Int64) (t : Table)
    → counter_delta k (put_counter n d t) ≡ (if n == k then d else counter_delta k t)
unfolding counter_delta put_counter
counter_delta-put_counter k n v [] = ground (arith, eq_iff n k)
counter_delta-put_counter k n v (r ∷ rows) =
    ground (arith, counter_delta-put_counter k n v rows, eq_iff r.id n, eq_iff r.id k, eq_iff n k)

pub gauge_value-put_counter :
    (k n : String) (d : Option Int64) (t : Table)
    → gauge_value k (put_counter n d t) ≡ gauge_value k t
unfolding gauge_value put_counter
gauge_value-put_counter k n v [] = ground arith
gauge_value-put_counter k n v (r ∷ rows) =
    ground
      (arith, gauge_value-put_counter k n v rows, eq_iff r.mtype "gauge", eq_iff r.mtype "counter")

pub add_bigint-add : (c d s : Int64) → add_bigint c d ≡ some s → s ≡ add c d
unfolding add_bigint
add_bigint-add c d s e = ground arith
