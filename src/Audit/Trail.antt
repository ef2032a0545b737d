-- ===== src/Audit/Trail.antt =====
-- What the file of the audit has while goroutines of many events write to it.
use mathlib.Core.Path.{subst}
use mathlib.Core.List.{Perm, perm_middle}
use mathlib.Core.List.Perm
use go_yandex_practicum_metr.Prelude.{
  ℕ, ◌+◌, ◌<◌, arith, leb, Option, none, some, List, [], ◌∷◌, ◌++◌, append_nil, append_assoc,
  get_elem?, set, get_elem?-set_self, get_elem?-set_ne, get_elem?-lt, ◌≡◌, ◌≢◌, inl, inr, ◌∙◌, refl,
  sym, ap, if◌then◌else◌, eqb, Bool-cases,
}
use go_yandex_practicum_metr.GoError.{GoError, ok}
use go_yandex_practicum_metr.Crypto.{Bytes}
use go_yandex_practicum_metr.Handler.{Event}
use go_yandex_practicum_metr.Audit.{
  Observer, to_file, AuditLib, write_line, file_receive, receive, Publisher,
}
use go_yandex_practicum_metr.Audit.Delivery.{
  Auditing, delivered, AuditStep, emit, deliver, finish, AuditReach, start, emits, moves,
}

-- A line of JSON for each event, in order.
unfoldable pub trail : (Event → Bytes) → List Event → Bytes
trail json [] = []
trail json (e ∷ es) = (json e ++ 10 ∷ []) ++ trail json es

trail-append :
    (json : Event → Bytes) (es : List Event) (e : Event)
    → trail json (es ++ e ∷ []) ≡ trail json es ++ (json e ++ 10 ∷ [])
unfolding trail
trail-append json [] e = append_nil (json e ++ 10 ∷ [])
trail-append json (x ∷ es) e =
    ap (λ t. (json x ++ 10 ∷ []) ++ t) (trail-append json es e)
    ∙ sym (append_assoc (json x ++ 10 ∷ []) (trail json es) (json e ++ 10 ∷ []))

-- The events whose goroutines have not come past observer `i`.
unfoldable pub waiting : ℕ → List (Event × ℕ) → List Event
waiting i [] = []
waiting i ((e, k) ∷ gs) = let rest = waiting i gs in if leb k i then e ∷ rest else rest

waiting-append : (i : ℕ) (g h : List (Event × ℕ)) → waiting i (g ++ h) ≡ waiting i g ++ waiting i h
unfolding waiting
waiting-append i [] h = refl
waiting-append i ((e, k) ∷ g) h = ground (arith, waiting-append i g h)

-- A goroutine that stays on its side of observer `i` changes nothing.
waiting_same :
    (i j k : ℕ) (e : Event) (g h : List (Event × ℕ))
    → leb j i ≡ leb k i
    → waiting i (g ++ (e, j) ∷ h) ≡ waiting i (g ++ (e, k) ∷ h)
unfolding waiting
waiting_same i j k e [] h same = ground arith
waiting_same i j k e ((x, n) ∷ g) h same = ground (arith, waiting_same i j k e g h same)

waiting_past :
    (i k : ℕ) (e : Event) (g h : List (Event × ℕ))
    → i < k
    → waiting i (g ++ (e, k) ∷ h) ≡ waiting i (g ++ h)
unfolding waiting
waiting_past i k e [] h past = ground arith
waiting_past i k e ((x, n) ∷ g) h past = ground (arith, waiting_past i k e g h past)

waiting_here :
    (i : ℕ) (e : Event) (g h : List (Event × ℕ))
    → waiting i (g ++ (e, i) ∷ h) ≡ waiting i g ++ e ∷ waiting i h
waiting_here i e g h = waiting-append i g ((e, i) ∷ h) ∙ ap (λ l. waiting i g ++ l) (first i e h)
  where
    first : (i : ℕ) (e : Event) (h : List (Event × ℕ)) → waiting i ((e, i) ∷ h) ≡ e ∷ waiting i h
    first i e h = unfold waiting in ground arith

module _ (lib : AuditLib) (json : Event → Bytes)
    (written : (e : Event) → lib.marshal_event e ≡ ok (json e)) (i : ℕ) (b : Bytes)
    (x : Option GoError) where
  -- A file with these bytes, to which every write succeeds.
  abbrev pub sound_file : Bytes → Observer
  sound_file contents = to_file (record { contents = contents; writes = []; close_error = x })

  receive-sound_file :
      (e : Event) (c : Bytes)
      → (receive lib e (sound_file c)).1 ≡ sound_file (c ++ (json e ++ 10 ∷ []))
  unfolding receive file_receive write_line
  receive-sound_file e c = rw (written e, receive, file_receive, write_line) refl

  -- Observer `i` is the file, with a line for each of the events `done`.
  abbrev pub HasTrail : List Event → Auditing → Type 0
  HasTrail done a = get_elem? a.publisher.observers i ≡ some (sound_file (b ++ trail json done))

  -- Each event that was emitted has its line, or waits for it.
  abbrev pub IsTrailed : List Event → Auditing → Type 0
  IsTrailed emitted a =
      (done : List Event) × HasTrail done a × Perm (done ++ waiting i a.running) emitted

  emitted_waits :
      (e : Event) (emitted : List Event) (a : Auditing)
      → IsTrailed emitted a
      → IsTrailed (e ∷ emitted) (record a { running = (e, 0) ∷ a.running })
  unfolding waiting
  emitted_waits e emitted a (done, has, perm) = (
    done,
    has,
    subst (λ l. Perm (done ++ l) (e ∷ emitted)) (ground arith)
        (Perm.trans (perm_middle done (waiting i a.running)) (Perm.cons e perm)),
  )

  -- A line is written.
  deliver_here :
      (before after : List (Event × ℕ)) (e : Event) (emitted done : List Event)
      → Perm (done ++ waiting i (before ++ (e, i) ∷ after)) emitted
      → Perm ((done ++ e ∷ []) ++ waiting i (before ++ (e, i + 1) ∷ after)) emitted
  deliver_here before after e emitted done perm =
      let gone : waiting i (before ++ (e, i + 1) ∷ after) ≡ waiting i before ++ waiting i after =
        waiting_past i (i + 1) e before after (omega arith) ∙ waiting-append i before after in
      let moved : Perm ((done ++ e ∷ []) ++ (waiting i before ++ waiting i after))
          (done ++ (waiting i before ++ e ∷ waiting i after)) =
        subst (λ l. Perm l (done ++ (waiting i before ++ e ∷ waiting i after)))
          (sym (append_assoc done (e ∷ []) (waiting i before ++ waiting i after)))
          (Perm.append_left done (Perm.symm (perm_middle (waiting i before) (waiting i after)))) in
      rw gone (Perm.trans moved (rw (waiting_here i e before after) at perm))

  after_delivery :
      (before after : List (Event × ℕ)) (e : Event) (k : ℕ) (o : Observer) (emitted : List Event)
      (a : Auditing)
      → a.running ≡ before ++ (e, k) ∷ after
      → get_elem? a.publisher.observers k ≡ some o
      → IsTrailed emitted a
      → IsTrailed emitted (record {
        publisher = delivered lib e k o a.publisher;
        running = before ++ (e, k + 1) ∷ after;
      })
  after_delivery before after e k o emitted a at_k there (done, has, perm) =
      elim (Bool-cases (eqb k i)) [
        | inl same ↦ here (ground arith)
        | inr other ↦ elsewhere (ground arith)
      ]
    where
      now : Perm (done ++ waiting i (before ++ (e, k) ∷ after)) emitted
      now = subst (λ l. Perm (done ++ waiting i l) emitted) at_k perm

      elsewhere :
          k ≢ i
          → IsTrailed emitted (record {
            publisher = delivered lib e k o a.publisher;
            running = before ++ (e, k + 1) ∷ after;
          })
      elsewhere n = (
        done,
        get_elem?-set_ne a.publisher.observers i k (receive lib e o).1 n ∙ has,
        subst (λ l. Perm (done ++ l) emitted)
            (waiting_same i k (k + 1) e before after (ground arith)) now,
      )

      here :
          k ≡ i
          → IsTrailed emitted (record {
            publisher = delivered lib e k o a.publisher;
            running = before ++ (e, k + 1) ∷ after;
          })
      here n =
          let file : o ≡ sound_file (b ++ trail json done) = cc in
          let line : (receive lib e o).1 ≡ sound_file (b ++ trail json (done ++ e ∷ [])) =
            ap (λ f. (receive lib e f).1) file
            ∙ receive-sound_file e (b ++ trail json done)
            ∙ ap sound_file (
                append_assoc b (trail json done) (json e ++ 10 ∷ [])
                ∙ ap (λ t. b ++ t) (sym (trail-append json done e))) in
          (
            done ++ e ∷ [],
            ap (λ j. get_elem? (set a.publisher.observers k (receive lib e o).1) j) (sym n)
                ∙ get_elem?-set_self a.publisher.observers k (receive lib e o).1 o there
                ∙ ap some line,
            subst (λ j. Perm ((done ++ e ∷ []) ++ waiting i (before ++ (e, j + 1) ∷ after)) emitted)
                (sym n)
                (deliver_here before after e emitted done
                  (subst (λ j. Perm (done ++ waiting i (before ++ (e, j) ∷ after)) emitted) n now)),
          )

  AuditStep-IsTrailed :
      {a c : Auditing} {o : Option Event} {emitted : List Event}
      → AuditStep lib a o c
      → IsTrailed emitted a
      → IsTrailed (elim o [ none ↦ emitted | some e ↦ e ∷ emitted ]) c
  AuditStep-IsTrailed {a} {emitted = emitted} (emit e) h = emitted_waits e emitted a h
  AuditStep-IsTrailed {a} {emitted = emitted} (deliver before after e k o at_k there) h =
      after_delivery before after e k o emitted a at_k there h
  AuditStep-IsTrailed {a} {emitted = emitted} (finish before after e k at_k past)
        (done, has, perm) =
      let beyond = get_elem?-lt a.publisher.observers i k _ has past in
      (
        done,
        has,
        subst (λ l. Perm (done ++ l) emitted)
            (ap (waiting i) at_k ∙ waiting_past i k e before after beyond) perm,
      )

  -- Whatever the order in which the goroutines of the events run, whatever the other observers and
  -- their servers do, and whether or not there is a logger: if every event has a JSON text and every
  -- write to the file of the audit succeeds, then at any moment the file has, after what it held
  -- before, one whole line for each event that was emitted, in some order, save those whose goroutine
  -- has not come to the file yet; when no goroutine is left, it has a line for each.
  pub AuditReach-IsTrailed :
      {p : Publisher} {emitted : List Event} {a : Auditing}
      → AuditReach lib p emitted a
      → get_elem? p.observers i ≡ some (sound_file b)
      → (done : List Event) × (get_elem? a.publisher.observers i
          ≡ some (sound_file (b ++ trail json done)))
        × Perm (done ++ waiting i a.running) emitted
  unfolding trail waiting
  AuditReach-IsTrailed start has =
      ([], has ∙ ap (λ c. some (sound_file c)) (sym (append_nil b)), Perm.refl [])
  AuditReach-IsTrailed (emits e r s) has = AuditStep-IsTrailed s (AuditReach-IsTrailed r has)
  AuditReach-IsTrailed (moves r s) has = AuditStep-IsTrailed s (AuditReach-IsTrailed r has)
