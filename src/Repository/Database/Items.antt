-- ===== src/Repository/Database/Items.antt =====
-- What one item of a batch does to the view, and a batch item by item.
use go_yandex_practicum_metr.Prelude.{
  String, ◌==◌, eq_iff, true, Option, none, some, or_else, ◌≡◌, List, ◌∷◌, sym, arith,
}
use go_yandex_practicum_metr.Int64.{Int64}
use go_yandex_practicum_metr.Model.{Float64, counter_type, gauge_type, Metrics}
use go_yandex_practicum_metr.Repository.Spec.{
  View, sum, set_gauge, add_counter, gauge_of, delta_of, last_gauge, total_delta, apply_batch,
}
use go_yandex_practicum_metr.Repository.Memory.Batch.{sum_assoc, gauge-ne-counter}

abbrev pub apply_item : Metrics → View → View
apply_item m w = record {
  gauge = λ k. or_else (gauge_of k m) (w.gauge k);
  counter = λ k. sum (w.counter k) (delta_of k m);
}

or_else_assoc :
    {A : Type 0} → (a b c : Option A) → or_else (or_else a b) c ≡ or_else a (or_else b c)
or_else_assoc a b c = ground arith

pub apply_batch-cons :
    (m : Metrics) (ms : List Metrics) (w : View)
    → apply_batch (m ∷ ms) w ≡ apply_batch ms (apply_item m w)
unfolding last_gauge total_delta
apply_batch-cons m ms w = λ i. record {
  gauge = λ k. or_else_assoc (last_gauge k ms) (gauge_of k m) (w.gauge k) i;
  counter = λ k. sym (sum_assoc (w.counter k) (delta_of k m) (total_delta k ms)) i;
}

view_ext :
    (v w : View)
    → ((k : String) → v.gauge k ≡ w.gauge k)
    → ((k : String) → v.counter k ≡ w.counter k)
    → v ≡ w
view_ext v w g c = λ i. record { gauge = λ k. g k i; counter = λ k. c k i }

pub item-gauge :
    (m : Metrics) (v : Float64) (w : View)
    → (m.mtype == gauge_type) ≡ true
    → m.value ≡ some v
    → apply_item m w ≡ set_gauge m.id v w
unfolding sum
item-gauge m v w e is =
    view_ext _ _ (λ k. ground (arith, eq_iff m.id k))
      (λ k.
        grind
          (arith, eq_iff, eq_iff m.mtype gauge_type, eq_iff m.mtype counter_type, gauge-ne-counter))

pub item-counter :
    (m : Metrics) (d : Int64) (w : View)
    → (m.mtype == counter_type) ≡ true
    → m.delta ≡ some d
    → apply_item m w ≡ add_counter m.id d w
unfolding sum
item-counter m d w e is =
    view_ext _ _
      (λ k.
        grind
          (arith, eq_iff, eq_iff m.mtype gauge_type, eq_iff m.mtype counter_type, gauge-ne-counter))
      (λ k. ground (arith, eq_iff m.id k))

-- An item without the number that its type asks for has no effect.
pub item-empty :
    (m : Metrics) (w : View)
    → ((m.mtype == gauge_type) ≡ true → m.value ≡ none)
    → ((m.mtype == counter_type) ≡ true → m.delta ≡ none)
    → apply_item m w ≡ w
unfolding sum
item-empty m w g c = view_ext _ _ (λ k. ground arith) (λ k. ground arith)
