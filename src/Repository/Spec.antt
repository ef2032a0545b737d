-- ===== src/Repository/Spec.antt =====
-- What a `Storage` promises, in terms of the metrics that a client can read: the abstract state,
-- and the effect of a batch on it in closed form, by what the batch says of each name.
use go_yandex_practicum_metr.Prelude.{
  String, ◌==◌, Option, none, some, or_else, ◌≡◌, ◌≢◌, List, [], ◌∷◌, if◌then◌else◌,
}
use go_yandex_practicum_metr.Int64.{Int64, add}
use go_yandex_practicum_metr.Model.{Metrics, Float64, counter_type, gauge_type}
use go_yandex_practicum_metr.Repository.{Storage}

-- The value of every gauge and the total of every counter; `none` where there is no such metric.
pub record View : Type 0 where
  pub gauge : String → Option Float64
  pub counter : String → Option Int64

-- What one item of a batch says of the gauge, and of the counter, called `k`.
abbrev pub gauge_of : String → Metrics → Option Float64
gauge_of k m = if m.mtype == gauge_type then (if m.id == k then m.value else none) else none

abbrev pub delta_of : String → Metrics → Option Int64
delta_of k m = if m.mtype == counter_type then (if m.id == k then m.delta else none) else none

-- A counter and a delta, where either may be missing; a missing counter counts as zero.
unfoldable pub sum : Option Int64 → Option Int64 → Option Int64
sum c none = c
sum none (some d) = some (add 0 d)
sum (some c) (some d) = some (add c d)

-- The last value that a batch gives the gauge `k`.
unfoldable pub last_gauge : String → List Metrics → Option Float64
last_gauge k [] = none
last_gauge k (m ∷ ms) = or_else (last_gauge k ms) (gauge_of k m)

-- The sum, modulo 2^64, of all that a batch adds to the counter `k`.
unfoldable pub total_delta : String → List Metrics → Option Int64
total_delta k [] = none
total_delta k (m ∷ ms) = sum (delta_of k m) (total_delta k ms)

abbrev pub set_gauge : String → Float64 → View → View
set_gauge n v w = record w { gauge = λ k. if n == k then some v else w.gauge k }

abbrev pub add_counter : String → Int64 → View → View
add_counter n d w = record w {
  counter = λ k. if n == k then sum (w.counter k) (some d) else w.counter k;
}

abbrev pub apply_batch : List Metrics → View → View
apply_batch ms w = record {
  gauge = λ k. or_else (last_gauge k ms) (w.gauge k);
  counter = λ k. sum (w.counter k) (total_delta k ms);
}

abbrev pub gauge_metric : String → Float64 → Metrics
gauge_metric n v = record { id = n; mtype = gauge_type; delta = none; value = some v; hash = "" }

abbrev pub counter_metric : String → Int64 → Metrics
counter_metric n d = record {
  id = n;
  mtype = counter_type;
  delta = some d;
  value = none;
  hash = "";
}

-- The metric of a name and a type.
abbrev pub metric_of : View → String → String → Option Metrics
metric_of w name mtype =
    if mtype == gauge_type
    then elim (w.gauge name) [ none ↦ none | some v ↦ some (gauge_metric name v) ]
    else if mtype == counter_type
    then elim (w.counter name) [ none ↦ none | some d ↦ some (counter_metric name d) ]
    else none

-- An update that returns no error has its whole effect, one that returns an error has none, what is
-- read is there, and reading changes nothing.
pub record IsStorage {S : Type 0} (st : Storage S) (view : S → View) : Type 0 where
  pub gauge_done :
      (n : String) (v : Float64) (s : S)
      → (st.update_gauge n v s).0 ≡ none
      → view (st.update_gauge n v s).1 ≡ set_gauge n v (view s)
  pub gauge_failed :
      (n : String) (v : Float64) (s : S)
      → (st.update_gauge n v s).0 ≢ none
      → view (st.update_gauge n v s).1 ≡ view s
  pub counter_done :
      (n : String) (d : Int64) (s : S)
      → (st.update_counter n d s).0 ≡ none
      → view (st.update_counter n d s).1 ≡ add_counter n d (view s)
  pub counter_failed :
      (n : String) (d : Int64) (s : S)
      → (st.update_counter n d s).0 ≢ none
      → view (st.update_counter n d s).1 ≡ view s
  pub batch_done :
      (ms : List Metrics) (s : S)
      → (st.update_batch ms s).0 ≡ none
      → view (st.update_batch ms s).1 ≡ apply_batch ms (view s)
  pub batch_failed :
      (ms : List Metrics) (s : S)
      → (st.update_batch ms s).0 ≢ none
      → view (st.update_batch ms s).1 ≡ view s
  pub metric_found :
      (n t : String) (s : S) (m : Metrics)
      → (st.get_metric n t s).0 ≡ some m
      → metric_of (view s) n t ≡ some m
  pub metric_kept : (n t : String) (s : S) → view (st.get_metric n t s).1 ≡ view s
  pub value_kept : (t n : String) (s : S) → view (st.get_value t n s).1 ≡ view s
  pub all_kept : (s : S) → view (st.get_all_metrics s).1 ≡ view s
