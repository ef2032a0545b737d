-- ===== src/Repository/Database/Batches.antt =====
-- The transaction of a batch, on a database whose connection loses no reply.
use go_yandex_practicum_metr.Prelude.{
  String, ◌==◌, eq_iff, true, false, Option, none, some, ◌≡◌, ◌∙◌, List, [], ◌∷◌, ap, sym, refl,
  arith, Bool-cases, inl, inr,
}
use mathlib.Core.Path.{subst}
use go_yandex_practicum_metr.Repository.Memory.Batch.{gauge-ne-counter}
use go_yandex_practicum_metr.Model.{Metrics, Float64, counter_type, gauge_type}
use go_yandex_practicum_metr.Int64.{Int64}
use go_yandex_practicum_metr.Retry.{Outcome}
use go_yandex_practicum_metr.Retry.Loop.{Ends}
use go_yandex_practicum_metr.Repository.Spec.{
  View, apply_batch, last_gauge, total_delta, sum, set_gauge, add_counter,
}
use go_yandex_practicum_metr.Repository.Database.{
  Reply, arrives, refused, lost, Database, Tx, tx_exec, tx_changed, after_exec, exec_metrics,
  commit, try_batch,
}
use go_yandex_practicum_metr.Repository.Database.Rows.{Table, Change, upsert_gauge, upsert_counter}
use go_yandex_practicum_metr.Repository.Database.Views.{IsTable, table_view}
use go_yandex_practicum_metr.Repository.Database.Lookups.{
  HasEffect, upsert_gauge-HasEffect, upsert_counter-HasEffect,
}
use go_yandex_practicum_metr.Repository.Database.Items.{
  apply_item, apply_batch-cons, item-gauge, item-counter, item-empty,
}
use go_yandex_practicum_metr.Repository.Database.Statements.{LosesNone, Shows}

-- A database that the open transaction has not touched.
abbrev pub IsKept : Table → Database → Type 0
IsKept base db = (db.table ≡ base) × LosesNone db.replies

-- What a part of a transaction leaves: with no error, rows with the effect in them.
abbrev pub TxEnds : Table → View → Outcome Tx → Type 0
TxEnds base w (none, (u, db)) = IsTable u × (table_view u ≡ w) × IsKept base db
TxEnds base w (some e, (u, db)) = IsKept base db

tx_exec-TxEnds :
    (change : Change) (effect : View → View)
    → HasEffect change effect
    → (base t : Table) (db : Database) → IsTable t
    → IsKept base db
    → TxEnds base (effect (table_view t)) (tx_exec change (t, db))
unfolding tx_exec
tx_exec-TxEnds change effect he base t db h (same, l) = by_replies db.replies l
  where
    by_change :
        (rs : List Reply) (o : Option Table)
        → LosesNone rs
        → change t ≡ o
        → TxEnds base
            (effect (table_view t))
            (tx_changed o (t, record { table = db.table; replies = rs }))
    by_change rs none l e = (same, l)
    by_change rs (some u) l e = let (hu, vu) = he t u h e in (hu, vu, (same, l))

    by_replies :
        (rs : List Reply)
        → LosesNone rs
        → TxEnds base
            (effect (table_view t))
            (tx_exec change (t, record { table = db.table; replies = rs }))
    by_replies [] l = by_change [] (change t) l refl
    by_replies (arrives ∷ rs) l = by_change rs (change t) l refl
    by_replies (refused e ∷ rs) l = (same, l)
    by_replies (lost n e ∷ rs) l = absurd l

after_exec-TxEnds :
    (base : Table) (v w : View) (id : String) (rest : Tx → Outcome Tx) (r : Outcome Tx)
    → TxEnds base v r
    → ((u : Table) (db : Database)
        → IsTable u
        → table_view u ≡ v
        → IsKept base db
        → TxEnds base w (rest (u, db)))
    → TxEnds base w (after_exec id rest r)
unfolding after_exec
after_exec-TxEnds base v w id rest (none, (u, db)) (hu, vu, kept) more = more u db hu vu kept
after_exec-TxEnds base v w id rest (some e, (u, db)) kept more = kept

at_view : (base : Table) (v w : View) (r : Outcome Tx) → v ≡ w → TxEnds base v r → TxEnds base w r
at_view base v w r same h = subst (λ x. TxEnds base x r) same h

not_both : (t : String) → (t == gauge_type) ≡ true → (t == counter_type) ≡ true → ⊥
not_both t g c = ground (arith, eq_iff t gauge_type, eq_iff t counter_type, gauge-ne-counter)

-- The rest of a batch, from any rows.
abbrev RestEnds : Table → List Metrics → Type 0
RestEnds base ms =
    (t : Table) (db : Database)
    → IsTable t
    → IsKept base db
    → TxEnds base (apply_batch ms (table_view t)) (exec_metrics ms (t, db))

module _ (base : Table) (m : Metrics) (ms : List Metrics) (rest : RestEnds base ms) (t : Table)
    (db : Database) (h : IsTable t) (kept : IsKept base db) where
  item_skipped :
      apply_item m (table_view t) ≡ table_view t
      → TxEnds base (apply_batch (m ∷ ms) (table_view t)) (exec_metrics ms (t, db))
  item_skipped same =
      at_view base _ _ _
        (ap (apply_batch ms) (sym same) ∙ sym (apply_batch-cons m ms (table_view t)))
        (rest t db h kept)

  item_done :
      (change : Change) (effect : View → View)
      → HasEffect change effect
      → apply_item m (table_view t) ≡ effect (table_view t)
      → TxEnds base
          (apply_batch (m ∷ ms) (table_view t))
          (after_exec m.id (exec_metrics ms) (tx_exec change (t, db)))
  item_done change effect he same =
      at_view base _ _ _
        (ap (apply_batch ms) (sym same) ∙ sym (apply_batch-cons m ms (table_view t)))
        (after_exec-TxEnds base (effect (table_view t)) _ m.id (exec_metrics ms)
          (tx_exec change (t, db)) (tx_exec-TxEnds change effect he base t db h kept)
          (λ u after hu vu kept'.
            at_view base _ _ _ (ap (apply_batch ms) vu) (rest u after hu kept')))

  item_gauge :
      (m.mtype == gauge_type) ≡ true
      → (o : Option Float64) → m.value ≡ o
      → TxEnds base (apply_batch (m ∷ ms) (table_view t)) (elim o [
        | none ↦ exec_metrics ms (t, db)
        | some v ↦ after_exec m.id (exec_metrics ms) (tx_exec (upsert_gauge m.id v) (t, db))
      ])
  item_gauge g none e =
      item_skipped (item-empty m (table_view t) (λ _. e) (λ c. absurd (not_both m.mtype g c)))
  item_gauge g (some v) e =
      item_done (upsert_gauge m.id v) (set_gauge m.id v) (upsert_gauge-HasEffect m.id v)
        (item-gauge m v (table_view t) g e)

  item_counter :
      (m.mtype == gauge_type) ≡ false
      → (m.mtype == counter_type) ≡ true
      → (o : Option Int64) → m.delta ≡ o
      → TxEnds base (apply_batch (m ∷ ms) (table_view t)) (elim o [
        | none ↦ exec_metrics ms (t, db)
        | some d ↦ after_exec m.id (exec_metrics ms) (tx_exec (upsert_counter m.id d) (t, db))
      ])
  item_counter g c none e = item_skipped (item-empty m (table_view t) (λ g'. cc) (λ _. e))
  item_counter g c (some d) e =
      item_done (upsert_counter m.id d) (add_counter m.id d) (upsert_counter-HasEffect m.id d)
        (item-counter m d (table_view t) c e)

-- The loop of a batch: with no error, the transaction has the effect of the whole batch.
pub exec_metrics-TxEnds : (ms : List Metrics) (base : Table) → RestEnds base ms
unfolding exec_metrics
exec_metrics-TxEnds [] base t db h kept = (h, unfold last_gauge total_delta sum in refl, kept)
exec_metrics-TxEnds (m ∷ ms) base t db h kept = elim (Bool-cases (m.mtype == gauge_type)) [
  | inl g ↦ rw g (item_gauge base m ms (exec_metrics-TxEnds ms base) t db h kept g m.value refl)
  | inr other ↦ rw other (elim (Bool-cases (m.mtype == counter_type)) [
    | inl c ↦
        rw c (item_counter base m ms (exec_metrics-TxEnds ms base) t db h kept other c m.delta refl)
    | inr neither ↦ rw neither (
        item_skipped base m ms (exec_metrics-TxEnds ms base) t db h kept
          (item-empty m (table_view t) (λ g. cc) (λ c. cc)))
  ])
]

kept_base :
    (base : Table) (v : View)
    → IsTable base
    → table_view base ≡ v
    → (db : Database) → db.table ≡ base
    → LosesNone db.replies
    → Shows v db
kept_base base v h vb db same l = ((subst IsTable (sym same) h, l), ap table_view same ∙ vb)

commit-Ends :
    (base : Table) (v w : View) (r : Outcome Tx)
    → IsTable base
    → table_view base ≡ v
    → TxEnds base w r
    → Ends (Shows v) (Shows w) (commit r)
unfolding commit
commit-Ends base v w (some e, (u, after)) h vb (same, l) = kept_base base v h vb after same l
commit-Ends base v w (none, (u, after)) h vb (hu, vu, (same, l)) = by_replies after.replies l
  where
    by_replies :
        (rs : List Reply)
        → LosesNone rs
        → Ends
            (Shows v)
            (Shows w)
            (commit (none, (u, record { table = after.table; replies = rs })))
    by_replies [] l = ((hu, l), vu)
    by_replies (arrives ∷ rs) l = ((hu, l), vu)
    by_replies (refused e ∷ rs) l =
        kept_base base v h vb (record { table = after.table; replies = rs }) same l
    by_replies (lost n e ∷ rs) l = absurd l

-- One attempt of a batch: it is committed as a whole, or it leaves an error and nothing else.
pub try_batch-Ends :
    (ms : List Metrics) (w : View) (db : Database)
    → Shows w db
    → Ends (Shows w) (Shows (apply_batch ms w)) (try_batch ms db)
unfolding try_batch
try_batch-Ends ms w db ((h, l), v) = by_replies db.replies l
  where
    committed :
        (rs : List Reply)
        → LosesNone rs
        → Ends
            (Shows w)
            (Shows (apply_batch ms w))
            (commit (exec_metrics ms (db.table, record { table = db.table; replies = rs })))
    committed rs l = commit-Ends db.table w (apply_batch ms w) _ h v (
        at_view db.table _ _ _ (ap (apply_batch ms) v)
          (exec_metrics-TxEnds ms db.table db.table _ h (refl, l)))

    by_replies :
        (rs : List Reply)
        → LosesNone rs
        → Ends
            (Shows w)
            (Shows (apply_batch ms w))
            (try_batch ms (record { table = db.table; replies = rs }))
    by_replies [] l = committed [] l
    by_replies (arrives ∷ rs) l = committed rs l
    by_replies (refused e ∷ rs) l = ((h, l), v)
    by_replies (lost n e ∷ rs) l = absurd l
