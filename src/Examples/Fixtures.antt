-- ===== src/Examples/Fixtures.antt =====
-- Concrete parameters for the runs: floats read and written as integers, JSON texts that are the
-- values themselves, and small storages.

use go_yandex_practicum_metr.Prelude.{refl, none, some, List, [], ◌∷◌, arith, if◌then◌else◌}
use go_yandex_practicum_metr.GoError.{Result, ok, err, text}
use go_yandex_practicum_metr.GoMap.{lookup}
use go_yandex_practicum_metr.Int64.{parse_int, format_int}
use go_yandex_practicum_metr.Model.{Metrics}
use go_yandex_practicum_metr.FloatText.{FloatText}
use go_yandex_practicum_metr.Repository.Json.{Json, JsonLaws, has_unsupported}
use go_yandex_practicum_metr.Repository.Memory.{MemStorage}
use go_yandex_practicum_metr.Repository.Memory.Valid.{IsValid}

abbrev pub float_text : FloatText
float_text = record { parse_float = parse_int; format_float = format_int; format_g = format_int }

abbrev write_list : List Metrics → Result (List Metrics)
write_list ms = if has_unsupported ms then err (text "json: unsupported value") else ok ms

abbrev read_one : List Metrics → Result Metrics
read_one [] = err (text "EOF")
read_one (m ∷ ms) = ok m

abbrev pub json : Json (List Metrics)
json = record {
  marshal_list = write_list;
  unmarshal_list = ok;
  decode_list = ok;
  decode = read_one;
  encode = λ m. write_list (m ∷ []);
}

pub json-laws : JsonLaws json
json-laws = record {
  unmarshal-marshal = λ ms t e. ground arith;
  marshal_supported = λ ms h. (ms, rw h);
  marshal_unsupported = λ ms h. (text "json: unsupported value", rw h);
}

abbrev pub gauge_item : Metrics
gauge_item = record { id = "Alloc"; mtype = "gauge"; delta = none; value = some 7; hash = "" }

abbrev pub counter_item : Metrics
counter_item = record {
  id = "PollCount";
  mtype = "counter";
  delta = some 5;
  value = none;
  hash = "";
}

-- A counter with no delta: the service refuses it, a batch passes over it.
abbrev pub broken_item : Metrics
broken_item = record {
  id = "PollCount";
  mtype = "counter";
  delta = none;
  value = some 1;
  hash = "";
}

abbrev pub store : MemStorage
store = record { gauges = ("Alloc", 3) ∷ ("Sys", 9) ∷ []; counters = ("PollCount", 40) ∷ [] }

pub store-IsValid : IsValid store
unfolding lookup
store-IsValid = record {
  gauges = (refl, (refl, tt));
  counters = (refl, tt);
  in_range = (omega arith, tt);
}
