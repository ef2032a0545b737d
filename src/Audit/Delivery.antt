-- ===== src/Audit/Delivery.antt =====
-- The audit while the server runs: emitAudit of internal/handler/handler.go starts a goroutine for
-- each event, which runs Notify of internal/audit/audit.go; the goroutines share the observers.
use go_yandex_practicum_metr.Prelude.{
  ℕ, ◌+◌, Option, none, some, List, [], ◌∷◌, ◌++◌, get_elem?, set, ◌≡◌,
}
use go_yandex_practicum_metr.Handler.{Event}
use go_yandex_practicum_metr.Audit.{Observer, AuditLib, receive, Publisher, log_error}

-- The goroutines of the events: each with the number of the observer that it comes to next.
pub record Auditing : Type 0 where
  pub publisher : Publisher
  pub running : List (Event × ℕ)

-- The observer `o` at place `k` receives the event; an error is logged.
abbrev pub delivered : AuditLib → Event → ℕ → Observer → Publisher → Publisher
delivered lib e k o p = record {
  observers = set p.observers k (receive lib e o).1;
  logged = log_error (receive lib e o).0 p.logged;
}

-- One step, and the event that it starts a goroutine for, if any. Receive of the file holds its
-- mutex for the whole write, and is one step.
pub data AuditStep (lib : AuditLib) (a : Auditing) : Option Event → Auditing → Type 0 where
  -- emitAudit
  emit : (e : Event) → AuditStep lib a (some e) (record a { running = (e, 0) ∷ a.running })
  -- one round of the loop of Notify
  deliver :
      (before after : List (Event × ℕ)) (e : Event) (k : ℕ) (o : Observer)
      → a.running ≡ before ++ (e, k) ∷ after
      → get_elem? a.publisher.observers k ≡ some o
      → AuditStep lib a none (record {
        publisher = delivered lib e k o a.publisher;
        running = before ++ (e, k + 1) ∷ after;
      })
  -- the end of Notify
  finish :
      (before after : List (Event × ℕ)) (e : Event) (k : ℕ)
      → a.running ≡ before ++ (e, k) ∷ after
      → get_elem? a.publisher.observers k ≡ none
      → AuditStep lib a none (record a { running = before ++ after })

-- What steps lead to from a publisher that nobody has notified, with the events that were emitted.
pub data AuditReach (lib : AuditLib) (p : Publisher) : List Event → Auditing → Type 0 where
  start : AuditReach lib p [] (record { publisher = p; running = [] })
  emits :
      {es : List Event} {a b : Auditing} (e : Event)
      → AuditReach lib p es a
      → AuditStep lib a (some e) b
      → AuditReach lib p (e ∷ es) b
  moves :
      {es : List Event} {a b : Auditing}
      → AuditReach lib p es a
      → AuditStep lib a none b
      → AuditReach lib p es b
