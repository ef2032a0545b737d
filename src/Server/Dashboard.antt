-- ===== src/Server/Dashboard.antt =====
-- GET / of a server whose metrics are in memory or in a file.
use mathlib.Core.List.{Perm}
use go_yandex_practicum_metr.Prelude.{String, Option, ◌≡◌, ◌∙◌, ap, ◌++◌}
use go_yandex_practicum_metr.Int64.{format_int}
use go_yandex_practicum_metr.FloatText.{FloatText}
use go_yandex_practicum_metr.Retry.{RetryLib}
use go_yandex_practicum_metr.Repository.Json.{Json}
use go_yandex_practicum_metr.Repository.Memory.{MemStorage, get_all_metrics}
use go_yandex_practicum_metr.Repository.Memory.Valid.{IsValid}
use go_yandex_practicum_metr.Repository.Database.{PgLib}
use go_yandex_practicum_metr.Handler.{
  MetricHandler, Request, World, respond, page, list_metrics, sort_rows, rows_of,
}
use go_yandex_practicum_metr.Handler.Dashboard.{IsSorted, rows, list_metrics_shows}
use go_yandex_practicum_metr.Server.{Backend, in_database, in_file, in_memory, backend_storage}

-- The metrics of the server are those of the memory `s`.
abbrev pub Holds : {Text : Type 0} → Backend Text → MemStorage → Type 0
Holds (in_database db) s = ⊥
Holds (in_file f) s = f.mem ≡ s
Holds (in_memory m) s = m ≡ s

module _ {Text : Type 0} (retry : RetryLib) (pg : PgLib) (ft : FloatText) where
  get_all_metrics-Holds :
      (b : Backend Text) (s : MemStorage)
      → Holds b s
      → (backend_storage retry pg ft).get_all_metrics b ≡ (get_all_metrics ft s, b)
  get_all_metrics-Holds (in_database db) s h = absurd h
  get_all_metrics-Holds (in_file f) s h = ap (λ m. (get_all_metrics ft m, in_file f)) h
  get_all_metrics-Holds (in_memory m) s h = ap (λ x. (get_all_metrics ft x, in_memory m)) h

  -- On a server whose metrics are in memory, with or without a file, GET / answers 200 with exactly
  -- one row for each gauge and each counter, sorted by type and then by name, and changes nothing.
  pub list_metrics-rows :
      {Content : Type 0} (json : Json Content) (split : String → Option String)
      (h : MetricHandler (Backend Text)) (r : Request Content) (w : World (Backend Text))
      (s : MemStorage)
      → h.svc.storage ≡ backend_storage retry pg ft
      → Holds w.store s
      → IsValid s
      → let shown = sort_rows (rows_of (get_all_metrics ft s)) in
        (list_metrics json ft split h r w ≡ (respond 200 (page shown), w))
        × Perm shown (rows "gauge" ft.format_float s.gauges ++ rows "counter" format_int s.counters)
        × IsSorted shown
  list_metrics-rows json split h r w s e holds valid =
      list_metrics_shows json ft split h r w s
        (ap (λ st. st.get_all_metrics w.store) e ∙ get_all_metrics-Holds w.store s holds) valid
