-- ===== src/Repository/Database/Statements.antt =====
-- One statement, and the transaction of a batch, on a database whose connection loses no reply.
use go_yandex_practicum_metr.Prelude.{Option, none, some, ◌≡◌, ◌∙◌, List, [], ◌∷◌, ap, refl}
use go_yandex_practicum_metr.Retry.Loop.{Ends}
use go_yandex_practicum_metr.Repository.Spec.{View}
use go_yandex_practicum_metr.Repository.Database.{
  Reply, arrives, refused, lost, Database, exec_context, changed,
}
use go_yandex_practicum_metr.Repository.Database.Rows.{Table, Change}
use go_yandex_practicum_metr.Repository.Database.Views.{IsTable, table_view}
use go_yandex_practicum_metr.Repository.Database.Lookups.{HasEffect}

-- A connection that loses no reply of a statement that was executed.
abbrev pub LosesNone : List Reply → Type 0
LosesNone [] = Unit
LosesNone (arrives ∷ rs) = LosesNone rs
LosesNone (refused e ∷ rs) = LosesNone rs
LosesNone (lost n e ∷ rs) = ⊥

-- A table that the program has written, behind such a connection.
abbrev pub IsSound : Database → Type 0
IsSound db = IsTable db.table × LosesNone db.replies

abbrev pub db_view : Database → View
db_view db = table_view db.table

-- What a client sees, and that all is well.
abbrev pub Shows : View → Database → Type 0
Shows w db = IsSound db × (db_view db ≡ w)

changed-Ends :
    (effect : View → View) (t : Table) (rs : List Reply) (o : Option Table) (w : View)
    → IsTable t
    → LosesNone rs
    → table_view t ≡ w
    → ((u : Table) → o ≡ some u → IsTable u × (table_view u ≡ effect (table_view t)))
    → Ends (Shows w) (Shows (effect w)) (changed o (record { table = t; replies = rs }))
changed-Ends effect t rs none w h l v he = ((h, l), v)
changed-Ends effect t rs (some u) w h l v he =
    let (hu, vu) = he u refl in ((hu, l), vu ∙ ap effect v)

-- A statement outside a transaction is executed, or it leaves an error and changes nothing.
pub exec_context-Ends :
    (change : Change) (effect : View → View) (w : View)
    → HasEffect change effect
    → (db : Database) → Shows w db
    → Ends (Shows w) (Shows (effect w)) (exec_context change db)
unfolding exec_context
exec_context-Ends change effect w he db ((h, l), v) = by_replies db.replies l
  where
    by_replies :
        (rs : List Reply)
        → LosesNone rs
        → Ends
            (Shows w)
            (Shows (effect w))
            (exec_context change (record { table = db.table; replies = rs }))
    by_replies [] l =
        changed-Ends effect db.table [] (change db.table) w h l v (λ u e. he db.table u h e)
    by_replies (arrives ∷ rs) l =
        changed-Ends effect db.table rs (change db.table) w h l v (λ u e. he db.table u h e)
    by_replies (refused e ∷ rs) l = ((h, l), v)
    by_replies (lost n e ∷ rs) l = absurd l
