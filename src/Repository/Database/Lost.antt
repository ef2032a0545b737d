-- ===== src/Repository/Database/Lost.antt =====
-- What becomes of the updates when the connection loses replies of statements that were executed.
use go_yandex_practicum_metr.Prelude.{
  ℕ, suc, ◌+◌, ◌*◌, ◌^◌, ◌<◌, ◌≤◌, String, ◌==◌, eq_iff, Bool, true, false, none, some, ◌≡◌, ◌⊎◌,
  inl, inr, ◌∙◌, List, [], ◌∷◌, All, length, ap, sym, refl, arith, if◌then◌else◌,
}
use go_yandex_practicum_metr.GoError.{GoError}
use go_yandex_practicum_metr.Model.{Float64}
use go_yandex_practicum_metr.Int64.{Int64, add}
use go_yandex_practicum_metr.Retry.{RetryLib, RetryLaws}
use go_yandex_practicum_metr.Retry.Loop.{Ends, FailsThen, retry_do-Ends, retry_do-succeeds}
use go_yandex_practicum_metr.Repository.Spec.{View, set_gauge, counter_metric}
use go_yandex_practicum_metr.Repository.Database.{
  Reply, arrives, refused, lost, Database, PgLib, is_retriable_pg_error, exec_context, changed,
  update_gauge, update_counter,
}
use go_yandex_practicum_metr.Repository.Database.Rows.{
  Table, upsert_gauge, put_gauge, upsert_counter, find_row, put_counter, new_delta, add_delta,
  put_new_delta, add_bigint,
}
use go_yandex_practicum_metr.Repository.Database.Views.{
  table_view, counter_delta, gauge_value-put_gauge, counter_delta-put_gauge, IsTable,
  counter_delta-put_counter, put_counter-IsTable,
}
use go_yandex_practicum_metr.Repository.Database.Lookups.{IsLookup, find_row-counter}

-- Setting a gauge twice is setting it once.
set_gauge-set_gauge :
    (n : String) (v : Float64) (w : View) → set_gauge n v (set_gauge n v w) ≡ set_gauge n v w
set_gauge-set_gauge n v w =
    λ i. record { gauge = λ k. if_if (n == k) (some v) (w.gauge k) i; counter = w.counter }
  where
    if_if :
        {A : Type 0} (b : Bool) (x y : A)
        → (if b then x else (if b then x else y)) ≡ (if b then x else y)
    if_if true x y = refl
    if_if false x y = refl

view-put_gauge :
    (n : String) (v : Float64) (t : Table)
    → table_view (put_gauge n v t) ≡ set_gauge n v (table_view t)
view-put_gauge n v t = λ i. record {
  gauge = λ k. gauge_value-put_gauge k n v t i;
  counter = λ k. counter_delta-put_gauge k n v t i;
}

-- The view before an update of a gauge, or after it.
abbrev pub MaySet : String → Float64 → View → Database → Type 0
MaySet n v w db = (table_view db.table ≡ w) ⊎ (table_view db.table ≡ set_gauge n v w)

abbrev pub Sets : String → Float64 → View → Database → Type 0
Sets n v w db = table_view db.table ≡ set_gauge n v w

put_gauge-Sets :
    (n : String) (v : Float64) (w : View) (db : Database)
    → MaySet n v w db
    → table_view (put_gauge n v db.table) ≡ set_gauge n v w
put_gauge-Sets n v w db (inl before) = view-put_gauge n v db.table ∙ ap (set_gauge n v) before
put_gauge-Sets n v w db (inr after) =
    view-put_gauge n v db.table ∙ ap (set_gauge n v) after ∙ set_gauge-set_gauge n v w

exec_gauge-Ends :
    (n : String) (v : Float64) (w : View) (db : Database)
    → MaySet n v w db
    → Ends (MaySet n v w) (Sets n v w) (exec_context (upsert_gauge n v) db)
unfolding exec_context upsert_gauge
exec_gauge-Ends n v w db h = by_replies db.replies
  where
    by_replies :
        (rs : List Reply)
        → Ends
            (MaySet n v w)
            (Sets n v w)
            (exec_context (upsert_gauge n v) (record { table = db.table; replies = rs }))
    by_replies [] = put_gauge-Sets n v w db h
    by_replies (arrives ∷ rs) = put_gauge-Sets n v w db h
    by_replies (refused e ∷ rs) = h
    by_replies (lost k e ∷ rs) = inr (put_gauge-Sets n v w db h)

module _ (retry : RetryLib) (laws : RetryLaws retry) (pg : PgLib) where
  -- Whatever replies the connection loses or the server refuses, UpdateGauge either returns no error
  -- and the gauge has the new value and all else its old one, or it returns an error and the view is
  -- the old one or the one with the new value.
  pub update_gauge-Ends :
      (n : String) (v : Float64) (db : Database)
      → Ends
          (MaySet n v (table_view db.table))
          (Sets n v (table_view db.table))
          (update_gauge retry pg n v db)
  unfolding update_gauge
  update_gauge-Ends n v db =
      retry_do-Ends retry laws _ _ _ _ (exec_gauge-Ends n v (table_view db.table)) db (inl refl)

-- An upsert of a counter that stays below 2^63.
upsert_counter-adds :
    (n : String) (c d : Int64) (t : Table)
    → IsTable t
    → counter_delta n t ≡ some c
    → c + d < 2 ^ 63
    → (u : Table) × (upsert_counter n d t ≡ some u) × IsTable u × (counter_delta n u ≡ some (c + d))
unfolding upsert_counter
upsert_counter-adds n c d t h old fits = by_row (find_row-counter n t h)
  where
    sum_fits : add_bigint c d ≡ some (c + d)
    sum_fits = unfold add_bigint add in ground arith

    stored : counter_delta n (put_counter n (some (c + d)) t) ≡ some (c + d)
    stored =
        counter_delta-put_counter n n (some (c + d)) t
        ∙ ap (λ b. if b then some (c + d) else counter_delta n t) ((eq_iff n n).1 refl)

    by_row :
        IsLookup (λ r. r.delta) counter_metric n (find_row n "counter" t) (counter_delta n t)
        → (u : Table) × (put_new_delta n t (new_delta d (find_row n "counter" t)) ≡ some u)
          × IsTable u
          × (counter_delta n u ≡ some (c + d))
    by_row (inl (missing, unset)) = let clash : none ≡ some c = sym unset ∙ old in cc
    by_row (inr (r, a, here, delta, is, m)) =
        let same : r.delta ≡ some c = delta ∙ sym is ∙ old in
        (
          put_counter n (some (c + d)) t,
          ap (λ x. put_new_delta n t (new_delta d x)) here
              ∙ ap (λ x. put_new_delta n t (add_delta x d)) same
              ∙ ap (λ x. put_new_delta n t (elim x [ none ↦ none | some s ↦ some (some s) ]))
                  sum_fits,
          put_counter-IsTable n (c + d) t h,
          stored,
        )

-- The replies of a connection that breaks off after each of several executed statements, then works.
abbrev pub lost_replies : List GoError → List Reply
lost_replies [] = arrives ∷ []
lost_replies (e ∷ es) = lost 0 e ∷ lost_replies es

one_more : (c d k : ℕ) → c + d + suc k * d ≡ c + suc (suc k) * d
one_more c d k = grind arith

first_fits : (c d k : ℕ) → c + suc k * d < 2 ^ 63 → c + d < 2 ^ 63
first_fits c d k h = grind arith

-- With `k` lost replies the statement is executed `k + 1` times before an attempt returns no error.
exec_counter-FailsThen :
    (p : GoError → Bool) (n : String) (d : Int64) (es : List GoError) (c : Int64) (t : Table)
    → IsTable t
    → All (λ e. p e ≡ true) es
    → counter_delta n t ≡ some c
    → c + suc (length es) * d < 2 ^ 63
    → (u : Database) × FailsThen
        (exec_context (upsert_counter n d))
        p
        (length es)
        (record { table = t; replies = lost_replies es })
        u
      × (counter_delta n u.table ≡ some (c + suc (length es) * d))
unfolding exec_context
exec_counter-FailsThen p n d [] c t h retried old fits =
    let (u, e, hu, new) = upsert_counter-adds n c d t h old (first_fits c d 0 fits) in
    (
      record { table = u; replies = [] },
      ap (λ x. changed x (record { table = t; replies = [] })) e,
      new ∙ ap some (omega arith),
    )
exec_counter-FailsThen p n d (x ∷ es) c t h (px, retried) old fits =
    let (u, e, hu, new) =
      upsert_counter-adds n c d t h old (first_fits c d (suc (length es)) fits) in
    let (v, more, total) =
      exec_counter-FailsThen p n d es (c + d) u hu retried new
        (rw (one_more c d (length es)) fits) in
    (
      v,
      (
        x,
        record { table = u; replies = lost_replies es },
        ap (λ y. (some x, (changed y (record { table = t; replies = lost_replies es })).1)) e,
        px,
        more,
      ),
      total ∙ ap some (one_more c d (length es)),
    )

module _ (retry : RetryLib) (laws : RetryLaws retry) (pg : PgLib) where
  -- Where a counter is stored and at most three replies are lost, each with an error that is retried,
  -- UpdateCounter returns no error, and the delta has been added once more for each lost reply (below
  -- the bound of int64).
  pub update_counter-repeats :
      (n : String) (d : Int64) (es : List GoError) (c : Int64) (t : Table)
      → IsTable t
      → All (λ e. is_retriable_pg_error retry pg e ≡ true) es
      → length es ≤ 3
      → counter_delta n t ≡ some c
      → c + suc (length es) * d < 2 ^ 63
      → (after : Database) × (update_counter retry pg n d
            (record { table = t; replies = lost_replies es })
          ≡ (none, after))
        × (counter_delta n after.table ≡ some (c + suc (length es) * d))
  unfolding update_counter
  update_counter-repeats n d es c t h retried few old fits =
      let (u, runs, new) =
        exec_counter-FailsThen (is_retriable_pg_error retry pg) n d es c t h retried old fits in
      (u, retry_do-succeeds retry laws _ _ (length es) _ u few runs, new)
