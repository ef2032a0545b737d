-- ===== src/Audit.antt =====
-- internal/audit: the publisher of audit.go and its two kinds of observers, file_observer.go and
-- http_observer.go, with buildAuditPublisher of cmd/server/main.go. JSON and the parser of URLs are
-- parameters; the file system and the remote server answer as the environment chooses.
pub mod Delivery
pub mod Trail
use go_yandex_practicum_metr.Prelude.{
  ℕ, String, ◌==◌, ltb, leb, ◌||◌, Bool, true, false, Option, none, some, List, [], ◌∷◌, ◌++◌, take,
  is_empty, if◌then◌else◌,
}
use Prim.Native.String
use go_yandex_practicum_metr.Int64.{format_uint}
use go_yandex_practicum_metr.GoError.{GoError, Result, ok, err, text, wrap}
use go_yandex_practicum_metr.Crypto.{Bytes}
use go_yandex_practicum_metr.Config.Server.{ServerConfig}
use go_yandex_practicum_metr.Handler.{Event}

-- What the next Write to a file does: all of it, or an error after the first `n` bytes.
pub data Write : Type 0 where
  complete : Write
  broken : ℕ → GoError → Write

-- FileObserver, with the bytes of its file, how the next writes fare, and what Close returns
pub record FileObserver : Type 0 where
  pub contents : Bytes
  pub writes : List Write
  pub close_error : Option GoError

-- HTTPObserver, with the bodies that were posted, and how the next requests are answered
pub record HttpObserver : Type 0 where
  pub url : String
  pub posted : List Bytes
  pub answers : List (Result ℕ)

pub data Observer : Type 0 where
  to_file : FileObserver → Observer
  to_url : HttpObserver → Observer

abbrev next_write : List Write → Write
next_write [] = complete
next_write (w ∷ ws) = w

abbrev later_writes : List Write → List Write
later_writes [] = []
later_writes (w ∷ ws) = ws

abbrev next_answer : List (Result ℕ) → Result ℕ
next_answer [] = ok 200
next_answer (a ∷ rest) = a

abbrev later_answers : List (Result ℕ) → List (Result ℕ)
later_answers [] = []
later_answers (a ∷ rest) = rest

-- o.f.Write on a file in append mode
unfoldable pub write_line : Bytes → FileObserver → Option GoError × FileObserver
write_line line o = elim (next_write o.writes) [
  | complete ↦ (none, record o { contents = o.contents ++ line; writes = later_writes o.writes })
  | broken n e ↦ (
    some (wrap "audit: write" e),
    record o { contents = o.contents ++ take n line; writes = later_writes o.writes },
  )
]

-- what follows o.client.Do
abbrev pub check_status : Result ℕ → Option GoError
check_status (err e) = some (wrap "audit: post" e)
check_status (ok status) =
    if ltb status 200 || leb 300 status
    then some (text (String.◌++◌ "audit: unexpected status " (format_uint status)))
    else none

unfoldable pub post_event : Bytes → HttpObserver → Option GoError × HttpObserver
post_event body o = (
  check_status (next_answer o.answers),
  record o { posted = o.posted ++ body ∷ []; answers = later_answers o.answers },
)

-- the two libraries
pub record AuditLib : Type 0 where
  pub marshal_event : Event → Result Bytes
  pub parse_url : String → Option GoError

module _ (lib : AuditLib) where
  -- FileObserver.Receive
  unfoldable pub file_receive : Event → FileObserver → Option GoError × FileObserver
  file_receive e o = elim (lib.marshal_event e) [
    | err x ↦ (some (wrap "audit: marshal event" x), o)
    | ok line ↦ write_line (line ++ 10 ∷ []) o
  ]

  -- HTTPObserver.Receive
  unfoldable pub http_receive : Event → HttpObserver → Option GoError × HttpObserver
  http_receive e o = elim (lib.marshal_event e) [
    | err x ↦ (some (wrap "audit: marshal event" x), o)
    | ok body ↦ elim (lib.parse_url o.url) [
      | some x ↦ (some (wrap "audit: build request" x), o)
      | none ↦ post_event body o
    ]
  ]

  unfoldable pub receive : Event → Observer → Option GoError × Observer
  receive e (to_file o) = let (x, after) = file_receive e o in (x, to_file after)
  receive e (to_url o) = let (x, after) = http_receive e o in (x, to_url after)

-- Publisher; `logged` is nothing where it has no logger
pub record Publisher : Type 0 where
  pub observers : List Observer
  pub logged : Option (List GoError)

abbrev pub log_error : Option GoError → Option (List GoError) → Option (List GoError)
log_error e none = none
log_error none (some log) = some log
log_error (some e) (some log) = some (log ++ e ∷ [])

-- Close of the one observer that is an io.Closer
abbrev pub close_observer : Observer → Option GoError
close_observer (to_file o) = o.close_error
close_observer (to_url o) = none

-- the loop of Publisher.Close, from the first error so far; every observer is closed
unfoldable pub close_observers : List Observer → Option GoError → Option GoError
close_observers [] first = first
close_observers (o ∷ os) (some e) = close_observers os (some e)
close_observers (o ∷ os) none = close_observers os (close_observer o)

unfoldable pub close_publisher : Publisher → Option GoError
close_publisher p = close_observers p.observers none

abbrev pub url_observers : String → List (Result ℕ) → List Observer
url_observers url answers =
    if url == "" then [] else to_url (record { url = url; posted = []; answers = answers }) ∷ []

abbrev pub publisher_of : List Observer → Option Publisher
publisher_of [] = none
publisher_of (o ∷ os) = some (record { observers = o ∷ os; logged = some [] })

-- buildAuditPublisher, where `opened` is what NewFileObserver would return and `answers` are those of
-- the remote server
unfoldable pub build_audit_publisher :
    ServerConfig → Result FileObserver → List (Result ℕ) → Result (Option Publisher)
build_audit_publisher cfg opened answers =
    if cfg.audit_file == ""
    then ok (publisher_of (url_observers cfg.audit_url answers))
    else elim opened [
      | err e ↦ err e
      | ok f ↦ ok (publisher_of (to_file f ∷ url_observers cfg.audit_url answers))
    ]
