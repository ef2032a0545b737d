-- ===== src/Repository/Memory/Snapshot.antt =====
-- Applying a snapshot to an empty storage restores the contents of the storage it was taken from.
use go_yandex_practicum_metr.Prelude.{
  String, eq_iff, Option, none, some, or_else, ◌≡◌, ◌∙◌, refl, [], ◌∷◌, arith,
}
use go_yandex_practicum_metr.GoMap.{GoMap, lookup, NodupKeys}
use go_yandex_practicum_metr.Int64.{Int64, IsInt64, add}
use go_yandex_practicum_metr.Model.{Float64}
use go_yandex_practicum_metr.Repository.Spec.{sum, last_gauge, total_delta}
use go_yandex_practicum_metr.Repository.Memory.{
  MemStorage, new_mem_storage, snapshot_gauges, snapshot_counters, snapshot, apply_metrics,
}
use go_yandex_practicum_metr.Repository.Memory.Batch.{view, view-apply_metrics}
use go_yandex_practicum_metr.Repository.Memory.Valid.{IsValid, AllInt64, lookup-IsInt64}

last_gauge-snapshot_counters :
    (k : String) (c : GoMap Int64) → last_gauge k (snapshot_counters c) ≡ none
unfolding last_gauge snapshot_counters
last_gauge-snapshot_counters k [] = refl
last_gauge-snapshot_counters k ((n, d) ∷ c) = rw (last_gauge-snapshot_counters k c)

last_gauge-snapshot_gauges :
    (k : String) (g : GoMap Float64) (c : GoMap Int64)
    → NodupKeys g
    → last_gauge k (snapshot_gauges g (snapshot_counters c)) ≡ lookup k g
unfolding last_gauge snapshot_gauges lookup
last_gauge-snapshot_gauges k [] c h = last_gauge-snapshot_counters k c
last_gauge-snapshot_gauges k ((n, v) ∷ g) c h =
    ground (arith, last_gauge-snapshot_gauges k g c h.1, eq_iff n k)

sum-none_left : (o : Option Int64) → ((d : Int64) → o ≡ some d → IsInt64 d) → sum none o ≡ o
unfolding sum add
sum-none_left none h = refl
sum-none_left (some d) h = let r = h d refl in ground arith

sum-none : (o : Option Int64) → sum o none ≡ o
unfolding sum
sum-none o = refl

first_delta : (d : Int64) (o : Option Int64) → o ≡ none → sum (some d) o ≡ some d
unfolding sum
first_delta d o e = rw e

total_delta-snapshot_counters :
    (k : String) (c : GoMap Int64)
    → NodupKeys c
    → AllInt64 c
    → total_delta k (snapshot_counters c) ≡ lookup k c
unfolding total_delta snapshot_counters lookup
total_delta-snapshot_counters k [] h r = refl
total_delta-snapshot_counters k ((n, d) ∷ c) h r =
    let ih = total_delta-snapshot_counters k c h.1 r.1 in
    let same = sum-none_left (lookup k c) (λ v e. lookup-IsInt64 k c v r.1 e) in
    ground (arith, ih, same, sum-none (some d), first_delta d (lookup k c), eq_iff n k)

total_delta-snapshot_gauges :
    (k : String) (g : GoMap Float64) (c : GoMap Int64)
    → NodupKeys c
    → AllInt64 c
    → total_delta k (snapshot_gauges g (snapshot_counters c)) ≡ lookup k c
unfolding total_delta snapshot_gauges
total_delta-snapshot_gauges k [] c h r = total_delta-snapshot_counters k c h r
total_delta-snapshot_gauges k ((n, v) ∷ g) c h r =
    rw (total_delta-snapshot_gauges k g c h r)
      (sum-none_left (lookup k c) (λ d e. lookup-IsInt64 k c d r e))

or_else-none : (o : Option Float64) → or_else o none ≡ o
or_else-none none = refl
or_else-none (some v) = refl

-- Whatever order the maps are visited in, the snapshot of a valid storage rebuilds its contents.
pub view-apply_metrics-snapshot :
    (s : MemStorage) → IsValid s → view (apply_metrics (snapshot s) new_mem_storage) ≡ view s
unfolding snapshot lookup
view-apply_metrics-snapshot s h =
    view-apply_metrics (snapshot s) new_mem_storage
    ∙ (λ i. record { gauge = λ k. gauges k i; counter = λ k. counters k i })
  where
    gauges : (k : String) → or_else (last_gauge k (snapshot s)) none ≡ lookup k s.gauges
    gauges k =
        rw (last_gauge-snapshot_gauges k s.gauges s.counters h.gauges)
          (or_else-none (lookup k s.gauges))

    counters : (k : String) → sum none (total_delta k (snapshot s)) ≡ lookup k s.counters
    counters k =
        rw (total_delta-snapshot_gauges k s.gauges s.counters h.counters h.in_range)
          (sum-none_left (lookup k s.counters) (λ d e. lookup-IsInt64 k s.counters d h.in_range e))
