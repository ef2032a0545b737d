-- ===== src/Repository/Json.antt =====
-- encoding/json, as the program calls it on `model.Metrics`. Its text format is not part of the
-- repository: the development takes the encoders and decoders as one parameter, over a type of texts.
use go_yandex_practicum_metr.Prelude.{
  ◌/◌, ◌%◌, ◌^◌, eqb, Bool, true, false, not, ◌||◌, none, some, List, [], ◌∷◌, ◌≡◌,
}
use go_yandex_practicum_metr.GoError.{GoError, Result, ok, err}
use go_yandex_practicum_metr.Model.{Metrics, Float64}

pub record Json (Text : Type 0) : Type 0 where
  -- json.MarshalIndent and json.Unmarshal, of a list
  pub marshal_list : List Metrics → Result Text
  pub unmarshal_list : Text → Result (List Metrics)
  -- json.NewDecoder(r.Body).Decode, of a list and of one metric
  pub decode_list : Text → Result (List Metrics)
  pub decode : Text → Result Metrics
  -- json.NewEncoder(w).Encode, of one metric
  pub encode : Metrics → Result Text

-- NaN and the infinities have all eleven exponent bits set; JSON has no text for them.
unfoldable pub is_finite : Float64 → Bool
is_finite v = not (eqb ((v / 2 ^ 52) % 2 ^ 11) 2047)

unfoldable pub has_unsupported : List Metrics → Bool
has_unsupported [] = false
has_unsupported (m ∷ ms) =
    elim m.value [ none ↦ false | some v ↦ not (is_finite v) ] || has_unsupported ms

-- What the documentation of encoding/json says of values that can be written.
pub record JsonLaws {Text : Type 0} (json : Json Text) : Type 0 where
  pub unmarshal-marshal :
      (ms : List Metrics) (t : Text) → json.marshal_list ms ≡ ok t → json.unmarshal_list t ≡ ok ms
  pub marshal_supported :
      (ms : List Metrics) → has_unsupported ms ≡ false → (t : Text) × (json.marshal_list ms ≡ ok t)
  pub marshal_unsupported :
      (ms : List Metrics)
      → has_unsupported ms ≡ true
      → (e : GoError) × (json.marshal_list ms ≡ err e)
