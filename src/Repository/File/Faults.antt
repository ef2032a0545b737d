-- ===== src/Repository/File/Faults.antt =====
-- What a Save that fails leaves behind, and a stored NaN or infinity.
use go_yandex_practicum_metr.Prelude.{String, eq_iff, some, ◌≡◌, List, [], ◌∷◌, arith, true, false}
use go_yandex_practicum_metr.GoError.{GoError}
use go_yandex_practicum_metr.GoMap.{GoMap, lookup}
use go_yandex_practicum_metr.Model.{Metrics, Float64}
use go_yandex_practicum_metr.Repository.Json.{Json, JsonLaws, has_unsupported, is_finite}
use go_yandex_practicum_metr.Repository.Memory.{snapshot, snapshot_gauges, snapshot_counters}
use go_yandex_practicum_metr.Repository.File.{FileBackedStorage, save}

has_unsupported-snapshot_gauges :
    (n : String) (v : Float64) (g : GoMap Float64) (rest : List Metrics)
    → lookup n g ≡ some v
    → is_finite v ≡ false
    → has_unsupported (snapshot_gauges g rest) ≡ true
unfolding has_unsupported lookup snapshot_gauges
has_unsupported-snapshot_gauges n v [] rest found bad = cc
has_unsupported-snapshot_gauges n v ((k, w) ∷ g) rest found bad =
    ground (arith, has_unsupported-snapshot_gauges n v g rest, eq_iff k n)

module _ {Text : Type 0} (json : Json Text) where
  -- While any gauge holds NaN or an infinity, Save returns an error and leaves the file and the
  -- storage as they were, whatever the other metrics are.
  pub save_blocked :
      JsonLaws json
      → (s : FileBackedStorage Text) (n : String) (v : Float64) → lookup n s.mem.gauges ≡ some v
      → is_finite v ≡ false
      → (e : GoError) × (save json s ≡ (some e, s))
  unfolding save snapshot
  save_blocked laws s n v found bad =
      let unsupported =
        has_unsupported-snapshot_gauges n v s.mem.gauges (snapshot_counters s.mem.counters) found
          bad in
      let (e, refused) = laws.marshal_unsupported _ unsupported in (e, rw (refused, save))
