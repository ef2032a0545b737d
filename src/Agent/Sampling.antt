-- ===== src/Agent/Sampling.antt =====
-- What the collector holds after a run of samples, and what a snapshot and an acknowledgement take
-- from it.
use go_yandex_practicum_metr.Prelude.{
  ◌+◌, ◌%◌, ◌^◌, String, ◌==◌, eq_iff, Option, none, some, or_else, List, [], ◌∷◌, length, ◌≡◌,
  refl, arith, if◌then◌else◌,
}
use go_yandex_practicum_metr.GoMap.{GoMap, lookup, insert, NodupKeys}
use go_yandex_practicum_metr.GoMap.Laws.{lookup-insert, insert-NodupKeys}
use go_yandex_practicum_metr.Int64.{IsInt64, add}
use go_yandex_practicum_metr.Model.{Float64}
use go_yandex_practicum_metr.Agent.{
  AgentMetrics, Sample, assign, collect, get_snapshot, ack_counter,
}

-- The last value that a sequence of assignments gives a name.
unfoldable pub last_assigned : String → List (String × Float64) → Option Float64
last_assigned k [] = none
last_assigned k ((j, v) ∷ ps) = or_else (last_assigned k ps) (if j == k then some v else none)

-- The collector after one Collect for each sample.
unfoldable pub collect_all : List Sample → AgentMetrics → AgentMetrics
collect_all [] m = m
collect_all (s ∷ ss) m = collect_all ss (collect s m)

pub lookup-assign :
    (k : String) (ps : List (String × Float64)) (g : GoMap Float64)
    → lookup k (assign ps g) ≡ or_else (last_assigned k ps) (lookup k g)
unfolding assign last_assigned
lookup-assign k [] g = refl
lookup-assign k ((j, v) ∷ ps) g =
    grind (arith, lookup-assign k ps (insert j v g), lookup-insert j k v g)

pub assign-NodupKeys :
    (ps : List (String × Float64)) (g : GoMap Float64) → NodupKeys g → NodupKeys (assign ps g)
unfolding assign
assign-NodupKeys [] g h = h
assign-NodupKeys ((j, v) ∷ ps) g h = assign-NodupKeys ps (insert j v g) (insert-NodupKeys j v g h)

pub last_assigned-eq-lookup :
    (k : String) (g : GoMap Float64) → NodupKeys g → last_assigned k g ≡ lookup k g
unfolding last_assigned lookup
last_assigned-eq-lookup k [] h = refl
last_assigned-eq-lookup k ((j, v) ∷ g) (fresh, h) =
    grind (arith, last_assigned-eq-lookup k g h, eq_iff j k)

-- A snapshot of a collector whose map has no key twice reads like the collector, and the order in
-- which the loop copies the entries does not matter.
pub get_snapshot-eq :
    (m : AgentMetrics) (k : String)
    → NodupKeys m.gauge
    → ((get_snapshot m).counter ≡ m.counter)
      × (lookup k (get_snapshot m).gauge ≡ lookup k m.gauge)
      × NodupKeys (get_snapshot m).gauge
unfolding get_snapshot lookup
get_snapshot-eq m k h = (
  refl,
  grind (arith, lookup-assign k m.gauge [], last_assigned-eq-lookup k m.gauge h),
  assign-NodupKeys m.gauge [] tt,
)

pub counter-collect_all :
    (ss : List Sample) (m : AgentMetrics)
    → IsInt64 m.counter
    → (collect_all ss m).counter ≡ (m.counter + length ss) % 2 ^ 64
unfolding collect_all collect add
counter-collect_all [] m h = ground arith
counter-collect_all (s ∷ ss) m h = grind (arith, counter-collect_all ss (collect s m))

-- A report that is acknowledged with the count of its snapshot leaves exactly the ticks that
-- arrived since the snapshot.
pub ack_counter-collect_all :
    (ss : List Sample) (m : AgentMetrics)
    → IsInt64 m.counter
    → (ack_counter (get_snapshot m).counter (collect_all ss m)).counter ≡ length ss % 2 ^ 64
unfolding ack_counter get_snapshot
ack_counter-collect_all ss m h = grind (arith, counter-collect_all ss m h)
