-- ===== src/Handler/Reads.antt =====
-- Reading a value over HTTP after writing it over HTTP, on MemStorage.
use go_yandex_practicum_metr.Prelude.{String, ◌==◌, Option, get_or, ◌≡◌, arith, false}
use go_yandex_practicum_metr.GoError.{ok}
use go_yandex_practicum_metr.GoMap.{lookup}
use go_yandex_practicum_metr.GoMap.Laws.{lookup-insert_self}
use go_yandex_practicum_metr.Int64.{Int64, add, parse_int, format_int}
use go_yandex_practicum_metr.Model.{Float64, gauge_type, counter_type}
use go_yandex_practicum_metr.FloatText.{FloatText}
use go_yandex_practicum_metr.Repository.Json.{Json}
use go_yandex_practicum_metr.Repository.Memory
use go_yandex_practicum_metr.Repository.Memory.{MemStorage, mem_storage, store_gauge, bump_counter}
use go_yandex_practicum_metr.Service
use go_yandex_practicum_metr.Service.{new_metric_service, notify_if_done, notify_update}
use go_yandex_practicum_metr.Handler.{
  MetricHandler, Request, World, respond, plain, update_metric, after_update_metric, get_value,
  after_get_value, emit_audit,
}

module _ {Text : Type 0} (json : Json Text) (ft : FloatText) (split : String → Option String)
    (h : MetricHandler MemStorage) (r : Request Text) (w : World MemStorage)
    (plain_service : h.svc ≡ new_metric_service (mem_storage ft))
    (named : (r.url_name == "") ≡ false) where
  store_after_gauge :
      (x : Float64)
      → r.url_type ≡ gauge_type
      → ft.parse_float r.url_value ≡ ok x
      → (update_metric json ft split h r w).1.store ≡ store_gauge r.url_name x w.store
  unfolding update_metric after_update_metric emit_audit Service.update_metric notify_if_done
      notify_update Memory.update_gauge
  store_after_gauge x t p = rw (named, update_metric, plain_service, t, p) (ground arith)

  -- After POST /update/gauge/{name}/{value}, GET /value/gauge/{name} answers 200 with the text of
  -- the float that was parsed.
  pub get_value-update_metric_gauge :
      (x : Float64)
      → r.url_type ≡ gauge_type
      → ft.parse_float r.url_value ≡ ok x
      → (get_value json ft split h r (update_metric json ft split h r w).1).0
        ≡ respond 200 (plain (ft.format_float x))
  unfolding get_value after_get_value Service.get_value Memory.get_value store_gauge
  get_value-update_metric_gauge x t p =
      rw (store_after_gauge x t p, get_value, plain_service, t, named)
        (ground (arith, lookup-insert_self r.url_name x w.store.gauges))

  store_after_counter :
      (d : Int64)
      → r.url_type ≡ counter_type
      → parse_int r.url_value ≡ ok d
      → (update_metric json ft split h r w).1.store ≡ bump_counter r.url_name d w.store
  unfolding update_metric after_update_metric emit_audit Service.update_metric notify_if_done
      notify_update Memory.update_counter
  store_after_counter d t p = rw (named, update_metric, plain_service, t, p) (ground arith)

  -- After POST /update/counter/{name}/{value}, GET /value/counter/{name} answers 200 with the text
  -- of the old counter, or zero, plus the delta that was parsed.
  pub get_value-update_metric_counter :
      (d : Int64)
      → r.url_type ≡ counter_type
      → parse_int r.url_value ≡ ok d
      → (get_value json ft split h r (update_metric json ft split h r w).1).0
        ≡ respond 200 (plain (format_int (add (get_or (lookup r.url_name w.store.counters) 0) d)))
  unfolding get_value after_get_value Service.get_value Memory.get_value bump_counter
  get_value-update_metric_counter d t p =
      rw (store_after_counter d t p, get_value, plain_service, t, named)
        (ground (
          arith,
          lookup-insert_self r.url_name (add (get_or (lookup r.url_name w.store.counters) 0) d)
              w.store.counters,
        ))
