-- ===== src/Repository.antt =====
-- internal/repository: the `Storage` interface of storage.go. Every operation takes the state of
-- the backend and gives the new state beside its results; an `error` is `none` where Go returns nil.
pub mod Spec
pub mod Memory
pub mod Json
pub mod File
pub mod Database
pub mod Restrict
use go_yandex_practicum_metr.Prelude.{String, Option, List}
use go_yandex_practicum_metr.GoError.{GoError}
use go_yandex_practicum_metr.GoMap.{GoMap}
use go_yandex_practicum_metr.Int64.{Int64}
use go_yandex_practicum_metr.Model.{Metrics, Float64}

pub record Storage (S : Type 0) : Type 0 where
  pub update_gauge : String → Float64 → S → Option GoError × S
  pub update_counter : String → Int64 → S → Option GoError × S
  pub update_batch : List Metrics → S → Option GoError × S
  -- name, then type
  pub get_metric : String → String → S → Option Metrics × S
  -- type, then name
  pub get_value : String → String → S → Option String × S
  pub get_all_metrics : S → GoMap String × S
