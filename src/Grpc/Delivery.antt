-- ===== src/Grpc/Delivery.antt =====
-- A batch over gRPC has the effect that the same batch has on the storage directly.
use mathlib.Core.Path.{subst}
use go_yandex_practicum_metr.Prelude.{
  String, ◌==◌, eq_iff, Option, none, some, or_else, ◌≡◌, ◌∙◌, true, false, refl, sym, ap, List, [],
  ◌∷◌, ◌++◌, ℕ, arith, Bool-cases, Option-cases, ◌⊎◌, inl, inr, if◌then◌else◌,
}
use go_yandex_practicum_metr.GoError.{GoError}
use go_yandex_practicum_metr.Int64.{Int64}
use go_yandex_practicum_metr.Model.{Metrics, counter_type, gauge_type}
use go_yandex_practicum_metr.Repository.Spec.{
  View, IsStorage, sum, delta_of, last_gauge, total_delta, apply_batch, gauge_metric,
  counter_metric,
}
use go_yandex_practicum_metr.Repository.Memory.Batch.{sum_assoc}
use go_yandex_practicum_metr.Service.{MetricService, notify_update, update_batch}
use go_yandex_practicum_metr.Service.Updates.{Does, update_batch-Does}
use go_yandex_practicum_metr.Grpc.{
  PbMetric, Status, done, invalid_argument, internal, permission_denied, unknown, from_pb, to_pb,
  update_metrics, status_of,
}

-- What the server reads from the wire: the well-formed items, with only the field of their type.
abbrev pub delivered : List Metrics → List Metrics
delivered [] = []
delivered (m ∷ ms) =
    if m.mtype == gauge_type
    then elim m.value [ none ↦ delivered ms | some v ↦ gauge_metric m.id v ∷ delivered ms ]
    else if m.mtype == counter_type
    then elim m.delta [ none ↦ delivered ms | some d ↦ counter_metric m.id d ∷ delivered ms ]
    else delivered ms

from_pb-to_pb : (ms : List Metrics) → from_pb (to_pb ms) ≡ some (delivered ms)
unfolding from_pb to_pb
from_pb-to_pb [] = refl
from_pb-to_pb (m ∷ ms) = ground (arith, from_pb-to_pb ms)

last_gauge-delivered :
    (k : String) (ms : List Metrics) → last_gauge k (delivered ms) ≡ last_gauge k ms
unfolding last_gauge
last_gauge-delivered k [] = refl
last_gauge-delivered k (m ∷ ms) =
    ground (arith, last_gauge-delivered k ms, eq_iff m.mtype "gauge", eq_iff m.mtype "counter")

gauge-not-counter : (t : String) → (t == "gauge") ≡ true → (t == "counter") ≡ false
gauge-not-counter t e = ap (λ x. x == "counter") ((eq_iff t "gauge").0 e)

-- The wire keeps what an item says of a counter, or the item says nothing of it and is left out.
delivered-cases :
    (k : String) (m : Metrics) (ms : List Metrics)
    → ((delivered (m ∷ ms) ≡ delivered ms) × (delta_of k m ≡ none))
      ⊎ ((x : Metrics) × (delivered (m ∷ ms) ≡ x ∷ delivered ms) × (delta_of k x ≡ delta_of k m))
delivered-cases k m ms = elim (Bool-cases (m.mtype == "gauge")) [
  | inl e ↦ elim (Option-cases m.value) [
    | inl n ↦ inl (simp (e, n) refl, simp (gauge-not-counter m.mtype e) refl)
    | inr (v, n) ↦
        inr (gauge_metric m.id v, simp (e, n) refl, simp (gauge-not-counter m.mtype e) refl)
  ]
  | inr e ↦ elim (Bool-cases (m.mtype == "counter")) [
    | inl c ↦ elim (Option-cases m.delta) [
      | inl n ↦ inl (simp (e, c, n) refl, ground arith)
      | inr (d, n) ↦ inr (counter_metric m.id d, simp (e, c, n) refl, simp (c, n) refl)
    ]
    | inr c ↦ inl (simp (e, c) refl, simp c refl)
  ]
]

total_delta-delivered :
    (k : String) (c : Option Int64) (ms : List Metrics)
    → sum c (total_delta k (delivered ms)) ≡ sum c (total_delta k ms)
unfolding total_delta sum
total_delta-delivered k c [] = refl
total_delta-delivered k c (m ∷ ms) = elim (delivered-cases k m ms) [
  | inl (e, n) ↦
      ap (λ l. sum c (total_delta k l)) e
      ∙ total_delta-delivered k c ms
      ∙ sum_assoc c none (total_delta k ms)
      ∙ ap (λ d. sum c (sum d (total_delta k ms))) (sym n)
  | inr (x, e, n) ↦
      ap (λ l. sum c (total_delta k l)) e
      ∙ ap (λ d. sum c (sum d (total_delta k (delivered ms)))) n
      ∙ sym (sum_assoc c (delta_of k m) (total_delta k (delivered ms)))
      ∙ total_delta-delivered k (sum c (delta_of k m)) ms
      ∙ sum_assoc c (delta_of k m) (total_delta k ms)
]

apply_batch-delivered :
    (ms : List Metrics) (w : View) → apply_batch (delivered ms) w ≡ apply_batch ms w
apply_batch-delivered ms w = λ i. record {
  gauge = λ k. or_else (last_gauge-delivered k ms i) (w.gauge k);
  counter = λ k. total_delta-delivered k (w.counter k) ms i;
}

-- How a call over gRPC that asks for the effect `f` ended: done, with the whole of it, or with an
-- internal error and no effect. No call is refused as ill formed.
abbrev pub Delivers : {S : Type 0} → (S → View) → View → (View → View) → Status × S → Type 0
Delivers view v f (done, s) = view s ≡ f v
Delivers view v f (internal, s) = view s ≡ v
Delivers view v f (invalid_argument, s) = ⊥
Delivers view v f (permission_denied, s) = ⊥

from_pb-unknown :
    (req rest : List PbMetric) (x : PbMetric) (n : ℕ)
    → x.kind ≡ unknown n
    → from_pb (req ++ x ∷ rest) ≡ none
unfolding from_pb
from_pb-unknown [] rest x n e = simp e refl
from_pb-unknown (m ∷ req) rest x n e = grind (arith, from_pb-unknown req rest x n e)

module _ {S : Type 0} (svc : MetricService S) (view : S → View) (laws : IsStorage svc.storage view)
    (keeps : (s : S) → view (notify_update svc s) ≡ view s) where
  status_of-Delivers :
      (v : View) (f : View → View) (r : Option GoError × S)
      → Does view v (some f) r
      → Delivers view v f (status_of r)
  status_of-Delivers v f (none, s) d = d
  status_of-Delivers v f (some e, s) d = d

  update_metrics-some :
      (req : List PbMetric) (ms : List Metrics) (s : S)
      → from_pb req ≡ some ms
      → update_metrics svc req s ≡ status_of (update_batch svc ms s)
  unfolding update_metrics
  update_metrics-some req ms s e = rw (e, update_metrics) refl

  -- The batch that the agent sends over gRPC ends with the effect on the storage of the batch that
  -- it was made of, items that are not well formed included (they have none), or with an internal
  -- error and no effect; for any storage that keeps its promise.
  pub update_metrics-Delivers :
      (ms : List Metrics) (s : S)
      → Delivers view (view s) (apply_batch ms) (update_metrics svc (to_pb ms) s)
  update_metrics-Delivers ms s =
      subst (λ r. Delivers view (view s) (apply_batch ms) r)
        (sym (update_metrics-some (to_pb ms) (delivered ms) s (from_pb-to_pb ms)))
        (status_of-Delivers (view s) (apply_batch ms) _ (
          subst (λ w. Does view (view s) (some w) (update_batch svc (delivered ms) s))
            (λ i w. apply_batch-delivered ms w i)
            (update_batch-Does svc view laws keeps (delivered ms) s)))

  -- A call over gRPC that has, anywhere, an item of a type that the protocol does not name is refused
  -- as ill formed, and nothing is stored.
  pub update_metrics-unknown :
      (req rest : List PbMetric) (x : PbMetric) (n : ℕ) (s : S)
      → x.kind ≡ unknown n
      → update_metrics svc (req ++ x ∷ rest) s ≡ (invalid_argument, s)
  unfolding update_metrics
  update_metrics-unknown req rest x n s e = rw (from_pb-unknown req rest x n e, update_metrics) refl
