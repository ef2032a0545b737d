-- ===== src/FloatText.antt =====
-- The standard library's text form of a `float64`, as the program calls it. Its algorithms are not
-- part of the repository: the development takes them as one parameter.
use go_yandex_practicum_metr.Prelude.{String, ◌≡◌}
use go_yandex_practicum_metr.GoError.{Result, ok}
use go_yandex_practicum_metr.Model.{Float64}

pub record FloatText : Type 0 where
  -- strconv.ParseFloat(s, 64)
  pub parse_float : String → Result Float64
  -- strconv.FormatFloat(v, 'f', -1, 64)
  pub format_float : Float64 → String
  -- fmt.Sprintf("%g", v)
  pub format_g : Float64 → String

-- What the documentation of FormatFloat promises with precision -1: the shortest text from which
-- ParseFloat gives the same float. It holds of the floats that `Reads` picks out (not of each NaN).
pub record ReadsBack (ft : FloatText) (Reads : Float64 → Type 0) : Type 0 where
  pub parse-format : (v : Float64) → Reads v → ft.parse_float (ft.format_float v) ≡ ok v
