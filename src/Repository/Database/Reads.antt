-- ===== src/Repository/Database/Reads.antt =====
-- What GetMetric returns is there, and reading changes nothing.
use mathlib.Core.Path.{subst}
use go_yandex_practicum_metr.Prelude.{
  String, ◌==◌, eq_iff, true, false, Option, none, some, ◌≡◌, ◌≢◌, inl, inr, ◌∙◌, List, [], ◌∷◌, ap,
  sym, refl, arith, Bool-cases,
}
use go_yandex_practicum_metr.GoMap.{GoMap}
use go_yandex_practicum_metr.FloatText.{FloatText}
use go_yandex_practicum_metr.Model.{Metrics}
use go_yandex_practicum_metr.Retry.{Outcome}
use go_yandex_practicum_metr.Retry.Loop.{Ends}
use go_yandex_practicum_metr.Repository.Spec.{View, metric_of, gauge_metric, counter_metric}
use go_yandex_practicum_metr.Repository.Database.{
  Reply, arrives, refused, lost, Database, try_get, try_list, found, result_or_none, row_metric,
}
use go_yandex_practicum_metr.Repository.Database.Rows.{Row, Table, has_key, find_row}
use go_yandex_practicum_metr.Repository.Database.Views.{IsRow, IsTable, table_view, key_type}
use go_yandex_practicum_metr.Repository.Database.Lookups.{
  IsLookup, find_row-gauge, find_row-counter,
}
use go_yandex_practicum_metr.Repository.Database.Statements.{LosesNone, Shows}

-- A table of such rows has no row of a third type.
find_row-other :
    (n t : String) (rows : Table)
    → IsTable rows
    → t ≢ "gauge"
    → t ≢ "counter"
    → find_row n t rows ≡ none
unfolding find_row
find_row-other n t [] h g c = refl
find_row-other n t (r ∷ rows) (hr, h) g c = elim (Bool-cases (has_key n t r)) [
  | inl here ↦ absurd (third r hr here)
  | inr other ↦ rw other (find_row-other n t rows h g c)
]
  where
    third : (r : Row) → IsRow r → has_key n t r ≡ true → ⊥
    third r (inl (is, d, v)) e = g (sym ((eq_iff r.mtype t).0 (key_type r.id r.mtype t n e)) ∙ is)
    third r (inr (is, d, v)) e = c (sym ((eq_iff r.mtype t).0 (key_type r.id r.mtype t n e)) ∙ is)

-- Of every metric that a lookup returns, the view says so.
abbrev pub Reads : View → String → String → Option Metrics → Type 0
Reads w n t o = (m : Metrics) → o ≡ some m → metric_of w n t ≡ some m

gauge-Reads :
    (n : String) (w : View) (row : Option Row)
    → IsLookup (λ r. r.value) gauge_metric n row (w.gauge n)
    → Reads w n "gauge" (found row none)
gauge-Reads n w row (inl (missing, unset)) m e =
    let clash : none ≡ some m = sym (ap (λ x. found x none) missing) ∙ e in cc
gauge-Reads n w row (inr (r, v, here, value, is, metric)) m e =
    let same : some (row_metric r) ≡ some m = sym (ap (λ x. found x none) here) ∙ e in
    rw is (ap some (sym metric) ∙ same)

counter-Reads :
    (n : String) (w : View) (row : Option Row)
    → IsLookup (λ r. r.delta) counter_metric n row (w.counter n)
    → Reads w n "counter" (found row none)
counter-Reads n w row (inl (missing, unset)) m e =
    let clash : none ≡ some m = sym (ap (λ x. found x none) missing) ∙ e in cc
counter-Reads n w row (inr (r, d, here, delta, is, metric)) m e =
    let same : some (row_metric r) ≡ some m = sym (ap (λ x. found x none) here) ∙ e in
    rw is (ap some (sym metric) ∙ same)

table-Reads :
    (n t : String) (rows : Table)
    → IsTable rows
    → Reads (table_view rows) n t (found (find_row n t rows) none)
table-Reads n t rows h = elim (Bool-cases (t == "gauge")) [
  | inl g ↦
      subst (λ u. Reads (table_view rows) n u (found (find_row n u rows) none))
        (sym ((eq_iff t "gauge").0 g))
        (gauge-Reads n (table_view rows) (find_row n "gauge" rows) (find_row-gauge n rows h))
  | inr other ↦ elim (Bool-cases (t == "counter")) [
    | inl c ↦
        subst (λ u. Reads (table_view rows) n u (found (find_row n u rows) none))
          (sym ((eq_iff t "counter").0 c))
          (counter-Reads n (table_view rows) (find_row n "counter" rows)
            (find_row-counter n rows h))
    | inr neither ↦ λ m e.
        let missing : find_row n t rows ≡ none =
          find_row-other n t rows h (differs t "gauge" other) (differs t "counter" neither) in
        let clash : none ≡ some m = sym (ap (λ x. found x none) missing) ∙ e in cc
  ]
]
  where
    differs : (t u : String) → (t == u) ≡ false → t ≢ u
    differs t u e same = ground (arith, eq_iff t u)

-- One attempt of GetMetric.
pub try_get-Ends :
    (n t : String) (w : View) (s : Database × Option Metrics)
    → Shows w s.0 × (s.1 ≡ none)
    → Ends (λ s. Shows w s.0 × (s.1 ≡ none)) (λ s. Shows w s.0 × Reads w n t s.1) (try_get n t s)
unfolding try_get
try_get-Ends n t w (db, result) (((h, l), v), fresh) = by_replies db.replies l
  where
    reads : Reads w n t (found (find_row n t db.table) result)
    reads =
        subst (λ r. Reads w n t (found (find_row n t db.table) r)) (sym fresh)
          (subst (λ x. Reads x n t (found (find_row n t db.table) none)) v
            (table-Reads n t db.table h))

    by_replies :
        (rs : List Reply)
        → LosesNone rs
        → Ends
            (λ s. Shows w s.0 × (s.1 ≡ none))
            (λ s. Shows w s.0 × Reads w n t s.1)
            (try_get n t (record { table = db.table; replies = rs }, result))
    by_replies [] l = (((h, l), v), reads)
    by_replies (arrives ∷ rs) l = (((h, l), v), reads)
    by_replies (refused e ∷ rs) l = (((h, l), v), fresh)
    by_replies (lost n e ∷ rs) l = absurd l

pub result-Reads :
    (n t : String) (w : View) (r : Outcome (Database × Option Metrics))
    → Ends (λ s. Shows w s.0 × (s.1 ≡ none)) (λ s. Shows w s.0 × Reads w n t s.1) r
    → Shows w (result_or_none r).1 × Reads w n t (result_or_none r).0
result-Reads n t w (none, (db, result)) (shows, reads) = (shows, reads)
result-Reads n t w (some e, (db, result)) (shows, fresh) = (shows, λ m clash. cc)

-- One attempt of GetAllMetrics changes no metric.
pub try_list-Ends :
    (ft : FloatText) (w : View) (s : Database × GoMap String)
    → Shows w s.0
    → Ends (λ s. Shows w s.0) (λ s. Shows w s.0) (try_list ft s)
unfolding try_list
try_list-Ends ft w (db, result) ((h, l), v) = by_replies db.replies l
  where
    by_replies :
        (rs : List Reply)
        → LosesNone rs
        → Ends
            (λ s. Shows w s.0)
            (λ s. Shows w s.0)
            (try_list ft (record { table = db.table; replies = rs }, result))
    by_replies [] l = ((h, l), v)
    by_replies (arrives ∷ rs) l = ((h, l), v)
    by_replies (refused e ∷ rs) l = ((h, l), v)
    by_replies (lost n e ∷ rs) l = absurd l
