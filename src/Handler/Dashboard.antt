-- ===== src/Handler/Dashboard.antt =====
-- The rows of the dashboard: one for each metric of a memory, sorted by type and name.
use Prim.Native.Char.{code}
use Prim.Native.String
use Prim.Native.String.{compare, then}
use Prim.Native.String.compare
use Prim.Native.Nat.{Ordering, compare as compare_ℕ}
use text.Mathlib.TextEquality.{path_by_compare}
use text.Mathlib.Text.{is_lt}
use text.Mathlib.TextLemmas.{append_assoc, cons-append, nil-append}
use mathlib.Core.List.{Perm}
use mathlib.Core.List.Perm
use go_yandex_practicum_metr.Prelude.{
  String, eq_iff, Option, some, ◌≡◌, ◌∙◌, refl, sym, ap, List, [], ◌∷◌, ◌++◌, arith, false, true,
  Bool-cases, ◌⊎◌, inl, inr, ◌==◌,
}
use go_yandex_practicum_metr.GoMap.{GoMap}
use go_yandex_practicum_metr.GoText.{cut}
use go_yandex_practicum_metr.GoText.Cut.{cut-append, Lacks}
use mathlib.Core.List.{append-nil}
use go_yandex_practicum_metr.Int64.{Int64, format_int}
use go_yandex_practicum_metr.FloatText.{FloatText}
use go_yandex_practicum_metr.Repository.Json.{Json}
use go_yandex_practicum_metr.Repository.Memory.{MemStorage, get_all_metrics}
use go_yandex_practicum_metr.Repository.Memory.Valid.{IsValid}
use go_yandex_practicum_metr.Repository.Memory.Listing.{prefixed, get_all_metrics-eq-prefixed}
use go_yandex_practicum_metr.Service
use go_yandex_practicum_metr.Handler.{
  MetricHandler, Request, World, respond, page, list_metrics, MetricView, row_less, insert_row,
  sort_rows, rows_of,
}

-- The row of each entry of a map.
abbrev pub rows {ℓ} : {V : Type ℓ} → String → (V → String) → GoMap V → List MetricView
rows kind f [] = []
rows kind f ((n, v) ∷ m) = record { kind = kind; name = n; value = f v } ∷ rows kind f m

compare_total :
    (s t : String)
    → is_lt (compare s t) ≡ false
    → is_lt (compare t s) ≡ false
    → compare s t ≡ Ordering.eq
compare_total String.[] String.[] h k = refl
compare_total String.[] (String.◌∷◌ d t) h k = cc (rw (compare.nil-cons d t) at h)
compare_total (String.◌∷◌ c s) String.[] h k = cc (rw (compare.nil-cons c s) at k)
compare_total (String.◌∷◌ c s) (String.◌∷◌ d t) h k =
    let e : is_lt ((then) (compare_ℕ (code c) (code d)) (compare s t)) ≡ false =
      rw (compare.cons-cons c d s t) at h in
    let f : is_lt ((then) (compare_ℕ (code d) (code c)) (compare t s)) ≡ false =
      rw (compare.cons-cons d c t s) at k in
    rw (compare.cons-cons c d s t) (ground (arith, compare_total s t, e, f))

-- The order of Go's texts, byte by byte.
abbrev pub Before : String → String → Type 0
Before s t = is_lt (compare s t) ≡ true

abbrev pub AtMost : String → String → Type 0
AtMost s t = (s ≡ t) ⊎ Before s t

not_before : (s t : String) → is_lt (compare t s) ≡ false → AtMost s t
not_before s t h = elim (Bool-cases (is_lt (compare s t))) [
  | inl less ↦ inr less
  | inr not_less ↦ inl (path_by_compare s t (compare_total s t not_less h))
]

-- By type, and by name where the type is the same.
abbrev pub InOrder : MetricView → MetricView → Type 0
InOrder v w = Before v.kind w.kind ⊎ ((v.kind ≡ w.kind) × AtMost v.name w.name)

row_less-InOrder : (v w : MetricView) → row_less v w ≡ true → InOrder v w
row_less-InOrder v w h = elim (Bool-cases (v.kind == w.kind)) [
  | inl same ↦ inr ((eq_iff v.kind w.kind).0 same, inr (rw same at h))
  | inr other ↦ inl (rw other at h)
]

not_row_less-InOrder : (v w : MetricView) → row_less w v ≡ false → InOrder v w
not_row_less-InOrder v w h = elim (Bool-cases (w.kind == v.kind)) [
  | inl same ↦ inr (sym ((eq_iff w.kind v.kind).0 same), not_before v.name w.name (rw same at h))
  | inr other ↦ by_kind (not_before v.kind w.kind (rw other at h)) other
]
  where
    by_kind : AtMost v.kind w.kind → (w.kind == v.kind) ≡ false → InOrder v w
    by_kind (inr before) other = inl before
    by_kind (inl same) other =
        let clash : false ≡ true = sym other ∙ (eq_iff w.kind v.kind).1 (sym same) in cc

-- Each row and the next one are in order.
abbrev pub IsSorted : List MetricView → Type 0
IsSorted [] = Unit
IsSorted (v ∷ []) = Unit
IsSorted (v ∷ w ∷ l) = InOrder v w × IsSorted (w ∷ l)

insert_row-perm : (v : MetricView) (l : List MetricView) → Perm (insert_row v l) (v ∷ l)
unfolding insert_row
insert_row-perm v [] = Perm.refl (v ∷ [])
insert_row-perm v (w ∷ l) = elim (Bool-cases (row_less w v)) [
  | inl less ↦ rw less (Perm.trans (Perm.cons w (insert_row-perm v l)) (Perm.swap v w l))
  | inr not_less ↦ rw not_less (Perm.refl (v ∷ w ∷ l))
]

pub sort_rows-perm : (l : List MetricView) → Perm (sort_rows l) l
unfolding sort_rows
sort_rows-perm [] = Perm.refl []
sort_rows-perm (v ∷ l) =
    Perm.trans (insert_row-perm v (sort_rows l)) (Perm.cons v (sort_rows-perm l))

insert_row-IsSorted :
    (v : MetricView) (l : List MetricView) → IsSorted l → IsSorted (insert_row v l)
unfolding insert_row
insert_row-IsSorted v [] h = tt
insert_row-IsSorted v (w ∷ []) h = elim (Bool-cases (row_less w v)) [
  | inl less ↦ rw less (row_less-InOrder w v less, tt)
  | inr not_less ↦ rw not_less (not_row_less-InOrder v w not_less, tt)
]
insert_row-IsSorted v (w ∷ x ∷ l) (h, hs) = elim (Bool-cases (row_less w v)) [
  | inl less ↦ rw less (
      after (Bool-cases (row_less x v)) (row_less-InOrder w v less)
        (insert_row-IsSorted v (x ∷ l) hs))
  | inr not_less ↦ rw not_less (not_row_less-InOrder v w not_less, (h, hs))
]
  where
    after :
        (row_less x v ≡ true) ⊎ (row_less x v ≡ false)
        → InOrder w v
        → IsSorted (insert_row v (x ∷ l))
        → IsSorted (w ∷ insert_row v (x ∷ l))
    after (inl less) first rest = rw less (h, (rw less at rest))
    after (inr not_less) first rest = rw not_less (first, (rw not_less at rest))

pub sort_rows-IsSorted : (l : List MetricView) → IsSorted (sort_rows l)
unfolding sort_rows
sort_rows-IsSorted [] = tt
sort_rows-IsSorted (v ∷ l) = insert_row-IsSorted v (sort_rows l) (sort_rows-IsSorted l)

slash-append : (n : String) → String.◌++◌ "/" n ≡ String.◌∷◌ "/" n
slash-append n = cons-append "/" "" n ∙ ap (String.◌∷◌ "/") (nil-append n)

-- cutting a key gives the type and the name back, whatever the name holds
cut_key :
    (kind n : String)
    → Lacks 47 kind
    → cut 47 (String.◌++◌ (String.◌++◌ kind "/") n) ≡ some (kind, n)
cut_key kind n h =
    ap (cut 47) (append_assoc kind "/" n ∙ ap (String.◌++◌ kind) (slash-append n))
    ∙ cut-append 47 kind "/" n h refl

rows_of-prefixed {ℓ} :
    {V : Type ℓ} (kind : String) (f : V → String) (m : GoMap V) (rest : GoMap String)
    → Lacks 47 kind
    → rows_of (prefixed (String.◌++◌ kind "/") f m ++ rest) ≡ rows kind f m ++ rows_of rest
unfolding rows_of
rows_of-prefixed kind f [] rest h = refl
rows_of-prefixed kind f ((n, v) ∷ m) rest h =
    rw (cut_key kind n h, rows_of)
      (ap (λ l. record { kind = kind; name = n; value = f v } ∷ l)
        (rows_of-prefixed kind f m rest h))

all_rows :
    (ft : FloatText) (s : MemStorage)
    → IsValid s
    → rows_of (get_all_metrics ft s)
      ≡ rows "gauge" ft.format_float s.gauges ++ rows "counter" format_int s.counters
unfolding rows_of
all_rows ft s valid =
    ap rows_of (get_all_metrics-eq-prefixed ft s valid)
    ∙ rows_of-prefixed "gauge" ft.format_float s.gauges _ (omega arith)
    ∙ ap (λ l. rows "gauge" ft.format_float s.gauges ++ l) (counter_rows s.counters)
  where
    counter_rows :
        (c : GoMap Int64) → rows_of (prefixed "counter/" format_int c) ≡ rows "counter" format_int c
    counter_rows c =
        ap rows_of (sym (append-nil (prefixed "counter/" format_int c)))
        ∙ rows_of-prefixed "counter" format_int c [] (omega arith)
        ∙ append-nil (rows "counter" format_int c)

-- GET / over a storage whose GetAllMetrics gives all metrics of a memory, and changes nothing.
pub list_metrics_shows :
    {S Text : Type 0} (json : Json Text) (ft : FloatText) (split : String → Option String)
    (h : MetricHandler S) (r : Request Text) (w : World S) (s : MemStorage)
    → h.svc.storage.get_all_metrics w.store ≡ (get_all_metrics ft s, w.store)
    → IsValid s
    → let shown = sort_rows (rows_of (get_all_metrics ft s)) in
      (list_metrics json ft split h r w ≡ (respond 200 (page shown), w))
      × Perm shown (rows "gauge" ft.format_float s.gauges ++ rows "counter" format_int s.counters)
      × IsSorted shown
unfolding list_metrics Service.get_all_metrics rows_of
list_metrics_shows json ft split h r w s e valid = (
  ap (λ o. (respond 200 (page (sort_rows (rows_of o.0))), record w { store = o.1 })) e,
  Perm.trans (sort_rows-perm (rows_of (get_all_metrics ft s)))
      (rw (all_rows ft s valid) (Perm.refl _)),
  sort_rows-IsSorted (rows_of (get_all_metrics ft s)),
)
