-- ===== src/Repository/Memory/Listing.antt =====
-- GetAllMetrics lists every metric once, under its type and its name.
use Prim.Native.String
use text.Mathlib.TextLemmas.{append_cancel_left, head-eq_of_cons-eq, cons-append}
use Prim.Native.Char.{code}
use go_yandex_practicum_metr.Prelude.{
  ℕ, String, eq_iff, none, ◌≡◌, ◌≢◌, ◌∙◌, refl, sym, ap, [], ◌∷◌, ◌++◌, arith,
}
use mathlib.Core.List.{append_assoc, append-nil}
use go_yandex_practicum_metr.GoMap.{GoMap, lookup, insert, NodupKeys}
use go_yandex_practicum_metr.Int64.{Int64, format_int}
use go_yandex_practicum_metr.Model.{Float64}
use go_yandex_practicum_metr.FloatText.{FloatText}
use go_yandex_practicum_metr.Repository.Memory.{
  MemStorage, list_gauges, list_counters, get_all_metrics,
}
use go_yandex_practicum_metr.Repository.Memory.Valid.{IsValid}

-- The entries of a map with every key behind a prefix and every value as text.
abbrev pub prefixed {ℓ} : {V : Type ℓ} → String → (V → String) → GoMap V → GoMap String
prefixed pre f [] = []
prefixed pre f ((n, v) ∷ m) = (String.◌++◌ pre n, f v) ∷ prefixed pre f m

-- writing a new key appends the entry
insert_fresh {ℓ} :
    {V : Type ℓ} (k : String) (v : V) (m : GoMap V)
    → lookup k m ≡ none
    → insert k v m ≡ m ++ (k, v) ∷ []
unfolding lookup insert
insert_fresh k v [] h = refl
insert_fresh k v ((j, w) ∷ m) h = ground (arith, insert_fresh k v m)

lookup-append_fresh {ℓ} :
    {V : Type ℓ} (k j : String) (v : V) (m : GoMap V)
    → lookup k m ≡ none
    → j ≢ k
    → lookup k (m ++ (j, v) ∷ []) ≡ none
unfolding lookup
lookup-append_fresh k j v [] h ne = ground (arith, eq_iff j k)
lookup-append_fresh k j v ((i, w) ∷ m) h ne = ground (arith, lookup-append_fresh k j v m)

-- No name of `g`, behind the prefix, is a key of `m`.
abbrev pub Fresh {ℓ κ} : {V : Type ℓ} {W : Type κ} → String → GoMap V → GoMap W → Type κ
Fresh pre [] m = Unit
Fresh pre ((n, v) ∷ g) m = (lookup (String.◌++◌ pre n) m ≡ none) × Fresh pre g m

ne_of_fresh :
    {A : Type 0} (n k : String) (v : A) (g : GoMap A) → lookup n ((k, v) ∷ g) ≡ none → k ≢ n
unfolding lookup
ne_of_fresh n k v g h = ground (arith, eq_iff k n)

lookup_tail :
    {A : Type 0} (n k : String) (v : A) (g : GoMap A)
    → lookup n ((k, v) ∷ g) ≡ none
    → lookup n g ≡ none
unfolding lookup
lookup_tail n k v g h = ground arith

Fresh-append :
    {V : Type 0} (pre n text : String) (g : GoMap V) (m : GoMap String)
    → Fresh pre g m
    → lookup n g ≡ none
    → Fresh pre g (m ++ (String.◌++◌ pre n, text) ∷ [])
Fresh-append pre n text [] m h fresh = tt
Fresh-append pre n text ((k, v) ∷ g) m (h, hs) fresh = (
  lookup-append_fresh (String.◌++◌ pre k) (String.◌++◌ pre n) text m h
      (λ e. ne_of_fresh n k v g fresh (sym (append_cancel_left pre n k e))),
  Fresh-append pre n text g m hs (lookup_tail n k v g fresh),
)

module _ (ft : FloatText) where
  list_gauges-eq-append :
      (g : GoMap Float64) (m : GoMap String)
      → NodupKeys g
      → Fresh "gauge/" g m
      → list_gauges ft g m ≡ m ++ prefixed "gauge/" ft.format_float g
  unfolding list_gauges
  list_gauges-eq-append [] m h fresh = sym (append-nil m)
  list_gauges-eq-append ((n, v) ∷ g) m (new, h) (f, fs) =
      ap (list_gauges ft g) (insert_fresh (String.◌++◌ "gauge/" n) (ft.format_float v) m f)
      ∙ list_gauges-eq-append g _ h (Fresh-append "gauge/" n (ft.format_float v) g m fs new)
      ∙ append_assoc m _ _

  list_counters-eq-append :
      (c : GoMap Int64) (m : GoMap String)
      → NodupKeys c
      → Fresh "counter/" c m
      → list_counters ft c m ≡ m ++ prefixed "counter/" format_int c
  unfolding list_counters
  list_counters-eq-append [] m h fresh = sym (append-nil m)
  list_counters-eq-append ((n, v) ∷ c) m (new, h) (f, fs) =
      ap (list_counters ft c) (insert_fresh (String.◌++◌ "counter/" n) (format_int v) m f)
      ∙ list_counters-eq-append c _ h (Fresh-append "counter/" n (format_int v) c m fs new)
      ∙ append_assoc m _ _

-- a gauge key and a counter key differ in their first character
keys_differ : (n k : String) → String.◌++◌ "gauge/" n ≢ String.◌++◌ "counter/" k
keys_differ n k e =
    let heads =
      head-eq_of_cons-eq (sym (cons-append "g" "auge/" n) ∙ e ∙ cons-append "c" "ounter/" k) in
    let codes : ◌≡◌ {A = ℕ} 103 99 = ap code heads in omega arith

lookup_other :
    (k : String) (f : Float64 → String) (g : GoMap Float64)
    → lookup (String.◌++◌ "counter/" k) (prefixed "gauge/" f g) ≡ none
unfolding lookup
lookup_other k f [] = refl
lookup_other k f ((n, v) ∷ g) = ground (
  arith,
  eq_iff (String.◌++◌ "gauge/" n) (String.◌++◌ "counter/" k),
  keys_differ n k,
  lookup_other k f g,
)

Fresh-counters :
    (f : Float64 → String) (g : GoMap Float64) (c : GoMap Int64)
    → Fresh "counter/" c (prefixed "gauge/" f g)
Fresh-counters f g [] = tt
Fresh-counters f g ((k, v) ∷ c) = (lookup_other k f g, Fresh-counters f g c)

Fresh-nil : (g : GoMap Float64) → Fresh {W = String} "gauge/" g []
unfolding lookup
Fresh-nil [] = tt
Fresh-nil ((n, v) ∷ g) = (refl, Fresh-nil g)

-- GetAllMetrics of a valid storage has one entry for each gauge and one for each counter, under
-- "gauge/" or "counter/" and the name, with the value as text: no entry overwrites another.
pub get_all_metrics-eq-prefixed :
    (ft : FloatText) (s : MemStorage)
    → IsValid s
    → get_all_metrics ft s
      ≡ prefixed "gauge/" ft.format_float s.gauges ++ prefixed "counter/" format_int s.counters
unfolding get_all_metrics
get_all_metrics-eq-prefixed ft s h =
    ap (list_counters ft s.counters)
      (list_gauges-eq-append ft s.gauges [] h.gauges (Fresh-nil s.gauges))
    ∙ list_counters-eq-append ft s.counters _ h.counters
        (Fresh-counters ft.format_float s.gauges s.counters)
