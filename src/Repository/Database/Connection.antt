-- ===== src/Repository/Database/Connection.antt =====
-- internal/config/db/db.go and NewDBStorage of internal/repository/db.go: the pool is opened,
-- checked and migrated, or closed again. The driver and the package migrate answer as the
-- environment chooses.
use go_yandex_practicum_metr.Prelude.{ℕ, suc, ◌-◌, arith, String, Option, none, some, ◌≡◌, refl}
use go_yandex_practicum_metr.GoError.{GoError, Result, ok, err, wrap}

-- DbConfig; the lifetime is in seconds
pub record DbConfig : Type 0 where
  pub dsn : String
  pub max_open_conns : ℕ
  pub max_idle_conns : ℕ
  pub conn_max_lifetime : ℕ

unfoldable pub default_config : String → DbConfig
default_config dsn = record {
  dsn = dsn;
  max_open_conns = 25;
  max_idle_conns = 5;
  conn_max_lifetime = 300;
}

-- what Up of migrate returns
pub data UpResult : Type 0 where
  applied : UpResult
  no_change : UpResult
  up_failed : GoError → UpResult

-- The answers to sql.Open, PingContext, iofs.New, WithInstance, NewWithInstance and Up.
pub record Answers : Type 0 where
  pub open_error : Option GoError
  pub ping_error : Option GoError
  pub source_error : Option GoError
  pub driver_error : Option GoError
  pub init_error : Option GoError
  pub up : UpResult

-- A pool with its settings, and how many pools are open.
abbrev pub Opened : Type 0
Opened = Result DbConfig × ℕ

-- db.Close
abbrev pub close_pool : ℕ → ℕ
close_pool n = n - 1

module _ (a : Answers) where
  -- Connect
  unfoldable pub connect : DbConfig → ℕ → Opened
  connect cfg pools = elim a.open_error [
    | some e ↦ (err (wrap "open db" e), pools)
    | none ↦ elim a.ping_error [
      | some e ↦ (err (wrap "ping db" e), close_pool (suc pools))
      | none ↦ (ok cfg, suc pools)
    ]
  ]

  -- `err != nil && err != migrate.ErrNoChange`
  abbrev pub up_error : UpResult → Option GoError
  up_error applied = none
  up_error no_change = none
  up_error (up_failed e) = some (wrap "migrate up" e)

  -- Migrate
  unfoldable pub migrate : Option GoError
  migrate = elim a.source_error [
    | some e ↦ some (wrap "migrations source" e)
    | none ↦ elim a.driver_error [
      | some e ↦ some (wrap "migrations driver" e)
      | none ↦ elim a.init_error [ some e ↦ some (wrap "migrate init" e) | none ↦ up_error a.up ]
    ]
  ]

  -- NewDBStorage from Migrate on, with `conn.Close()` on a failure
  abbrev pub migrated : Option GoError → Opened → Opened
  migrated m (err e, n) = (err e, n)
  migrated none (ok cfg, n) = (ok cfg, n)
  migrated (some e) (ok cfg, n) = (err (wrap "migrate" e), close_pool n)

  unfoldable pub new_db_storage : String → ℕ → Opened
  new_db_storage dsn pools = migrated migrate (connect (default_config dsn) pools)

  -- What is left of an attempt that began with `pools` open pools.
  abbrev pub LeavesNoPool : ℕ → Opened → Type 0
  LeavesNoPool pools (err e, n) = n ≡ pools
  LeavesNoPool pools (ok cfg, n) =
      (n ≡ suc pools) × (a.open_error ≡ none) × (a.ping_error ≡ none) × (migrate ≡ none)

  connect-LeavesNoPool :
      (cfg : DbConfig) (pools : ℕ) (o p m : Option GoError)
      → a.open_error ≡ o
      → a.ping_error ≡ p
      → migrate ≡ m
      → LeavesNoPool pools (
          migrated m (elim o [
            | some e ↦ (err (wrap "open db" e), pools)
            | none ↦ elim p [
              | some e ↦ (err (wrap "ping db" e), close_pool (suc pools))
              | none ↦ (ok cfg, suc pools)
            ]
          ]))
  connect-LeavesNoPool cfg pools (some e) p m eo ep em = refl
  connect-LeavesNoPool cfg pools none (some e) m eo ep em = omega arith
  connect-LeavesNoPool cfg pools none none (some e) eo ep em = omega arith
  connect-LeavesNoPool cfg pools none none none eo ep em = (refl, eo, ep, em)

  -- NewDBStorage returns a storage over one more open pool, which answered and which is migrated, or
  -- it returns an error and leaves no pool open that was not open before.
  pub new_db_storage-LeavesNoPool :
      (dsn : String) (pools : ℕ) → LeavesNoPool pools (new_db_storage dsn pools)
  unfolding new_db_storage connect
  new_db_storage-LeavesNoPool dsn pools =
      connect-LeavesNoPool (default_config dsn) pools a.open_error a.ping_error migrate refl refl
        refl
