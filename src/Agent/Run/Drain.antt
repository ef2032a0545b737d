-- ===== src/Agent/Run/Drain.antt =====
-- When Run returns, every batch that a report made has had its delivery attempt, exactly once.
use go_yandex_practicum_metr.Prelude.{
  ℕ, ◌+◌, ◌<◌, ◌≤◌, Bool, true, false, List, [], ◌∷◌, ◌++◌, length, length-append, ◌≡◌, ◌⊎◌, inl,
  inr, ◌∙◌, refl, sym, ap, arith, if◌then◌else◌,
}
use go_yandex_practicum_metr.Agent.Run.{
  Batch, Reporter, waiting, offering, flushing, returned, stopped, RunState, run_start, Step, poll,
  poll_extra, cancel, tick, offer, flush, flush_offered, send_last, close_jobs, receive, sent,
  leave, Reach, start, later,
}

-- How many batches of a list pass a test: two lists with the same counts for every test hold the
-- same batches equally often.
unfoldable pub count : (Batch → Bool) → List Batch → ℕ
count p [] = 0
count p (b ∷ bs) = (if p b then 1 else 0) + count p bs

-- The batch that the reporter holds.
abbrev pub held : Reporter → List Batch
held waiting = []
held (offering b) = b ∷ []
held (flushing b) = b ∷ []
held returned = []
held stopped = []

count-append :
    (p : Batch → Bool) (xs ys : List Batch) → count p (xs ++ ys) ≡ count p xs + count p ys
unfolding count
count-append p [] ys = omega arith
count-append p (x ∷ xs) ys = omega (arith, count-append p xs ys)

abbrev is_stopped : Reporter → Bool
is_stopped stopped = true
is_stopped _ = false

-- A reporter that has not closed the channel: no worker has left.
running :
    {n : ℕ} (s : RunState) (r : Reporter)
    → s.reporter ≡ r
    → is_stopped r ≡ false
    → (s.workers ≡ n) ⊎ ((s.reporter ≡ stopped) × (s.jobs ≡ []))
    → s.workers ≡ n
running s r e open_yet (inl w) = w
running s r e open_yet (inr (st, empty)) =
    let closed : is_stopped r ≡ true = ap is_stopped (sym e ∙ st) in cc

-- The counts of what was made and of where it is now; no more batches are sent than there are
-- workers; and a worker that has left found the channel closed and empty.
record Inv (p : Batch → Bool) (rate_limit : ℕ) (s : RunState) : Type 0 where
  balance :
      count p s.made
      ≡ count p s.attempted + count p s.in_flight + count p s.jobs + count p (held s.reporter)
  busy : length s.in_flight ≤ s.workers
  left : (s.workers ≡ rate_limit) ⊎ ((s.reporter ≡ stopped) × (s.jobs ≡ []))

module _ (p : Batch → Bool) (rate_limit : ℕ) where
  holding :
      (s : RunState) (r : Reporter) → s.reporter ≡ r → count p (held s.reporter) ≡ count p (held r)
  holding s r e = ap (λ r. count p (held r)) e

  Inv-start : Inv p rate_limit (run_start rate_limit)
  unfolding count
  Inv-start = record { balance = refl; busy = omega arith; left = inl refl }

  Step-Inv : {s t : RunState} → Step rate_limit s t → Inv p rate_limit s → Inv p rate_limit t
  unfolding count
  Step-Inv (poll x) h = record { balance = h.balance; busy = h.busy; left = h.left }
  Step-Inv (poll_extra itoa memory cpu) h = record {
    balance = h.balance;
    busy = h.busy;
    left = h.left;
  }
  Step-Inv cancel h = record { balance = h.balance; busy = h.busy; left = h.left }
  Step-Inv {s} (tick e) h = record {
    balance = omega (arith, h.balance, holding s waiting e);
    busy = h.busy;
    left = inl (running s waiting e refl h.left);
  }
  Step-Inv {s} (offer b e room) h = record {
    balance = omega (arith, h.balance, holding s (offering b) e, count-append p s.jobs (b ∷ []));
    busy = h.busy;
    left = inl (running s (offering b) e refl h.left);
  }
  Step-Inv {s} (flush e c) h = record {
    balance = omega (arith, h.balance, holding s waiting e);
    busy = h.busy;
    left = inl (running s waiting e refl h.left);
  }
  Step-Inv {s} (flush_offered b e c) h = record {
    balance = omega (arith, h.balance, holding s (offering b) e);
    busy = h.busy;
    left = inl (running s (offering b) e refl h.left);
  }
  Step-Inv {s} (send_last b e room) h = record {
    balance = omega (arith, h.balance, holding s (flushing b) e, count-append p s.jobs (b ∷ []));
    busy = h.busy;
    left = inl (running s (flushing b) e refl h.left);
  }
  Step-Inv {s} (close_jobs e) h = record {
    balance = omega (arith, h.balance, holding s returned e);
    busy = h.busy;
    left = inl (running s returned e refl h.left);
  }
  Step-Inv {s} (receive b rest e idle) h = record {
    balance = omega (arith, h.balance, ap (count p) e);
    busy = omega arith;
    left = elim h.left [
      | inl w ↦ inl w
      | inr (st, empty) ↦ let contra : b ∷ rest ≡ [] = sym e ∙ empty in cc
    ];
  }
  Step-Inv {s} (sent before after b e) h = record {
    balance = omega (
      arith,
      h.balance,
      ap (count p) e,
      count-append p before (b ∷ after),
      count-append p before after,
    );
    busy =
        omega (
          arith,
          h.busy,
          ap length e,
          length-append before (b ∷ after),
          length-append before after,
        );
    left = h.left;
  }
  Step-Inv {s} (leave n e idle closed empty) h = record {
    balance = h.balance;
    busy = omega arith;
    left = inr (closed, empty);
  }

  Reach-Inv : {s : RunState} → Reach rate_limit s → Inv p rate_limit s
  Reach-Inv start = Inv-start
  Reach-Inv (later r st) = Step-Inv st (Reach-Inv r)

count-short : (p : Batch → Bool) (xs : List Batch) → length xs ≤ 0 → count p xs ≡ 0
unfolding count
count-short p [] h = refl
count-short p (x ∷ xs) h = absurd (omega arith)

-- Agent.Run starts with some workers and returns only when all of them have left. Whatever the
-- order of the steps of its goroutines, the channel is then closed and empty, and each batch that a
-- report made, the last flush included, has been given to SendBatch exactly as often as it was made.
pub Reach-drained :
    (rate_limit : ℕ) (s : RunState) (p : Batch → Bool)
    → 0 < rate_limit
    → Reach rate_limit s
    → s.workers ≡ 0
    → (s.reporter ≡ stopped) × (s.jobs ≡ []) × (count p s.made ≡ count p s.attempted)
unfolding count
Reach-drained rate_limit s p some_workers r finished =
    let h = Reach-Inv p rate_limit r in
    elim h.left [
      | inl w ↦ absurd (omega arith)
      | inr (closed, empty) ↦
          let nothing : count p s.jobs + count p (held s.reporter) ≡ 0 =
            omega (arith, ap (count p) empty, ap (λ r. count p (held r)) closed) in
          (
            closed,
            empty,
            omega (arith, h.balance, count-short p s.in_flight (omega arith), nothing),
          )
    ]
