-- ===== src/Handler/Routes/Answers.antt =====
-- How every request that goes through Routes is answered, and what it changes.
use go_yandex_practicum_metr.Prelude.{List}
use go_yandex_practicum_metr.FloatText.{FloatText}
use go_yandex_practicum_metr.Repository.Json.{Json}
