-- ===== src/Repository/Restrict.antt =====
-- A `Storage` on those of its states that satisfy a predicate which its operations keep.
use go_yandex_practicum_metr.Prelude.{String, List}
use go_yandex_practicum_metr.Int64.{Int64}
use go_yandex_practicum_metr.Model.{Metrics, Float64}
use go_yandex_practicum_metr.Repository.{Storage}

-- Every operation leads from a state with `P` to one with `P`.
pub record Keeps {S : Type 0} (st : Storage S) (P : S → Type 0) : Type 0 where
  pub keeps_gauge : (n : String) (v : Float64) (s : S) → P s → P (st.update_gauge n v s).1
  pub keeps_counter : (n : String) (d : Int64) (s : S) → P s → P (st.update_counter n d s).1
  pub keeps_batch : (ms : List Metrics) (s : S) → P s → P (st.update_batch ms s).1
  pub keeps_metric : (n t : String) (s : S) → P s → P (st.get_metric n t s).1
  pub keeps_value : (t n : String) (s : S) → P s → P (st.get_value t n s).1
  pub keeps_all : (s : S) → P s → P (st.get_all_metrics s).1

abbrev pub restrict :
    {S : Type 0} → (st : Storage S) (P : S → Type 0) → Keeps st P → Storage ((s : S) × P s)
restrict st P k = record {
  update_gauge = λ n v sp.
      ((st.update_gauge n v sp.0).0, ((st.update_gauge n v sp.0).1, k.keeps_gauge n v sp.0 sp.1));
  update_counter = λ n d sp. (
    (st.update_counter n d sp.0).0,
    ((st.update_counter n d sp.0).1, k.keeps_counter n d sp.0 sp.1),
  );
  update_batch = λ ms sp.
      ((st.update_batch ms sp.0).0, ((st.update_batch ms sp.0).1, k.keeps_batch ms sp.0 sp.1));
  get_metric = λ n t sp.
      ((st.get_metric n t sp.0).0, ((st.get_metric n t sp.0).1, k.keeps_metric n t sp.0 sp.1));
  get_value = λ t n sp.
      ((st.get_value t n sp.0).0, ((st.get_value t n sp.0).1, k.keeps_value t n sp.0 sp.1));
  get_all_metrics =
      λ sp. ((st.get_all_metrics sp.0).0, ((st.get_all_metrics sp.0).1, k.keeps_all sp.0 sp.1));
}
