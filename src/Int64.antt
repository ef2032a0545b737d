-- ===== src/Int64.antt =====
-- Go's `int64` as its bit pattern, a number below 2^64 that stands for itself below 2^63 and for
-- itself less 2^64 from there on; `+` wraps around. With strconv.FormatInt and strconv.ParseInt
-- for base 10 as internal/service/metrics.go and internal/repository/storage.go call them.
use Prim.Native.Char.{Char, code}
use go_yandex_practicum_metr.Prelude.{
  ℕ, zero, suc, ◌+◌, ◌-◌, ◌*◌, ◌/◌, ◌%◌, ◌^◌, ◌<◌, String, Bool, ◌||◌, ◌==◌, ltb, leb, eqb,
  if◌then◌else◌,
}
use mathlib.Core.Bool.{true, false}
use go_yandex_practicum_metr.GoError.{Result, ok, err, text}

abbrev pub Int64 : Type 0
Int64 = ℕ

abbrev pub IsInt64 : Int64 → Type 0
IsInt64 n = n < 2 ^ 64

-- `a + b` on int64
unfoldable pub add : Int64 → Int64 → Int64
add a b = (a + b) % 2 ^ 64

-- the digit character of a number below ten
unfoldable pub digit_char : ℕ → Char
digit_char zero = "0"
digit_char (suc zero) = "1"
digit_char (suc (suc zero)) = "2"
digit_char (suc (suc (suc zero))) = "3"
digit_char (suc (suc (suc (suc zero)))) = "4"
digit_char (suc (suc (suc (suc (suc zero))))) = "5"
digit_char (suc (suc (suc (suc (suc (suc zero)))))) = "6"
digit_char (suc (suc (suc (suc (suc (suc (suc zero))))))) = "7"
digit_char (suc (suc (suc (suc (suc (suc (suc (suc zero)))))))) = "8"
digit_char _ = "9"

-- the digits of a number in front of `rest`; the fuel bounds their count
unfoldable pub digits_from : ℕ → ℕ → String → String
digits_from zero n rest = rest
digits_from (suc fuel) n rest =
    let more = digits_from fuel (n / 10) (String.◌∷◌ (digit_char (n % 10)) rest) in
    if ltb n 10 then String.◌∷◌ (digit_char n) rest else more

-- Twenty digits are enough below 2^64.
unfoldable pub format_uint : ℕ → String
format_uint n = digits_from 20 n ""

-- strconv.FormatInt(v, 10)
unfoldable pub format_int : Int64 → String
format_int n = if ltb n (2 ^ 63) then format_uint n else String.◌∷◌ "-" (format_uint (2 ^ 64 - n))

-- the loop of strconv.ParseUint in base 10, with 64 bits
unfoldable pub scan : ℕ → String → Result ℕ
scan n String.[] = ok n
scan n (String.◌∷◌ c s) =
    let d = code c - 48 in
    let rest = scan (n * 10 + d) s in
    if ltb (code c) 48 || ltb 57 (code c)
    then err (text "invalid syntax")
    else if leb (2 ^ 64) (n * 10 + d)
    then err (text "value out of range")
    else rest

unfoldable pub parse_uint : String → Result ℕ
parse_uint s = if s == "" then err (text "invalid syntax") else scan 0 s

-- the limits of a 64-bit result: 2^63 - 1 above and -2^63 below
abbrev pub signed : Bool → Result ℕ → Result Int64
signed negative (err e) = err e
signed negative (ok n) =
    if negative
    then (if ltb (2 ^ 63) n then err (text "value out of range") else ok ((2 ^ 64 - n) % 2 ^ 64))
    else (if leb (2 ^ 63) n then err (text "value out of range") else ok n)

-- strconv.ParseInt(s, 10, 64)
unfoldable pub parse_int : String → Result Int64
parse_int String.[] = err (text "invalid syntax")
parse_int (String.◌∷◌ c s) =
    if eqb (code c) 45
    then signed true (parse_uint s)
    else if eqb (code c) 43
    then signed false (parse_uint s)
    else signed false (parse_uint (String.◌∷◌ c s))
