-- ===== src/Jobs/Outbox/Relay/Delivery.antt =====
-- What a drain delivers (service/outboxrelay/relay.go).
use mathlib.Core.List.{append-nil}
use vk_agregator.Base.{
  ℕ, true, false, ◌≡◌, refl, sym, ap, ◌∙◌, ◌⊎◌, inl, inr, Option, none, some, ◌++◌, arith,
}
use vk_agregator.Base.Lists.{any, length, take}
use vk_agregator.Base.Eq.{text_key, uuid_key}
use vk_agregator.Base.Action.{Action, Result, ok, err, Error}
use vk_agregator.Domain.Billing.{Time}
use vk_agregator.Tx.{run_in_tx}
use vk_agregator.Jobs.Outbox.{fetch_pending}
use vk_agregator.Jobs.Outbox.Pending.{waiting, is_distinct}
use vk_agregator.Jobs.Outbox.Relay.{Task, Pipe, drain_events, drain_batch, drain, outbox_tx}
use vk_agregator.Jobs.Outbox.Relay.Loop.{
  tasks_of, is_unreadable, first_refusal, or_else, result_of, limit, due, later, take-drop,
  loop_done, loop_answers, loop-queue,
}

-- The error of a drain's transaction: of its beginning, of its batch, or of its commit.
abbrev pub answer : Option Error → Option Error → Option Error → Result (Unit {0})
answer begin batch commit = result_of (or_else begin (or_else batch commit))

module _ (refuses : Task → Option Error) (clock : ℕ → Time) where
  tx_answers :
      (begin commit batch : Option Error) (body : Action Pipe (Unit {0})) (p : Pipe)
      → (body p).0 ≡ result_of batch
      → (outbox_tx begin commit body p).0 ≡ answer begin batch commit
  unfolding outbox_tx run_in_tx
  tx_answers (some x) commit batch body p h = refl
  tx_answers none (some x) none body p h = ground (arith, h)
  tx_answers none (some x) (some y) body p h = ground (arith, h)
  tx_answers none none none body p h = ground (arith, h)
  tx_answers none none (some y) body p h = ground (arith, h)

  tx_ok :
      (begin commit : Option Error) (body : Action Pipe (Unit {0})) (p : Pipe)
      → (outbox_tx begin commit body p).0 ≡ ok tt
      → (outbox_tx begin commit body p ≡ body p) × ((body p).0 ≡ ok tt)
  unfolding outbox_tx run_in_tx
  tx_ok (some x) commit body p done = absurd (ground (arith, done))
  tx_ok none (some x) body p done = absurd (ground (arith, done))
  tx_ok none none body p done = ground (arith, done)

  tx_failed :
      (begin commit : Option Error) (body : Action Pipe (Unit {0})) (p : Pipe) (x : Error)
      → (outbox_tx begin commit body p).0 ≡ err x
      → (outbox_tx begin commit body p).1.outbox ≡ p.outbox
  unfolding outbox_tx run_in_tx
  tx_failed (some y) commit body p x failed = refl
  tx_failed none (some y) body p x failed = ground (arith, failed)
  tx_failed none none body p x failed = ground (arith, failed)

  tx-queue :
      (begin commit : Option Error) (body : Action Pipe (Unit {0})) (p : Pipe)
      → ((outbox_tx begin commit body p).1.queue ≡ p.queue)
        ⊎ ((outbox_tx begin commit body p).1.queue ≡ (body p).1.queue)
  unfolding outbox_tx
  tx-queue (some y) commit body p = inl refl
  tx-queue none commit body p = inr refl

  abbrev started : Pipe → Pipe
  started p = record p { published = 0 }

  batch_runs :
      (batch : ℕ) (p : Pipe)
      → drain_batch refuses clock batch p ≡ drain_events refuses clock (due batch p.outbox) p
  unfolding drain_batch fetch_pending
  batch_runs batch p = refl

  -- A drain, under the transaction of the database, of an outbox in which no two events share an
  -- identifier. It answers the error of the transaction's beginning, else the error of the first
  -- event of its batch that cannot be read or of which the queue refuses the task, else the error of
  -- the commit, and `ok` where there is none of them. If it answers `ok`, it answers the number of events in its batch of pending events;
  -- the queue has taken the task of every queued job among them, each once and in their order, behind
  -- the tasks that it had; none of them was unreadable; and of the events that were pending exactly
  -- that batch is pending no more. If it answers an error, for whichever step failed, beginning and
  -- committing too, the outbox is as it was, so that the next drain reads the same events again, and
  -- the queue has taken the tasks of some first events of the batch.
  pub drain-queue :
      (begin commit : Option Error) (batch : ℕ) (p : Pipe)
      → is_distinct p.outbox ≡ true
      → let r = drain refuses (outbox_tx begin commit) clock batch p in
        let events = due batch p.outbox in
        (r.0.1 ≡ answer begin (first_refusal refuses events) commit)
        × (r.0.1 ≡ ok tt
            → (r.0.0 ≡ length events)
              × (r.1.queue ≡ p.queue ++ tasks_of events)
              × (any is_unreadable events ≡ false)
              × (waiting r.1.outbox ≡ later batch p.outbox))
        × ((x : Error)
            → r.0.1 ≡ err x
            → (r.1.outbox ≡ p.outbox)
              × ((k : ℕ) × (r.1.queue ≡ p.queue ++ tasks_of (take k events))))
  unfolding drain
  drain-queue begin commit batch p d = (
    tx_answers begin commit (first_refusal refuses (due batch p.outbox))
        (drain_batch refuses clock batch) (started p)
        (ap (λ y. y.0) (batch_runs batch (started p))
          ∙ loop_answers refuses clock (due batch p.outbox) (later batch p.outbox) (started p) d
              (sym (take-drop (limit batch) (waiting p.outbox)))),
    λ done.
        let (same, went) = tx_ok begin commit (drain_batch refuses clock batch) (started p) done in
        let runs = batch_runs batch (started p) in
        let end_ =
          loop_done refuses clock (due batch p.outbox) (later batch p.outbox) (started p) d
            (sym (take-drop (limit batch) (waiting p.outbox))) (ap (λ x. x.0) (sym runs) ∙ went) in
        let moved = ap (λ x. x.1) (same ∙ runs) in
        (
          ap (λ x. x.published) moved ∙ end_.count ∙ omega arith,
          ap (λ x. x.queue) moved ∙ end_.queue,
          end_.readable,
          ap (λ x. waiting x.outbox) moved ∙ end_.left,
        ),
    λ x failed. (
      tx_failed begin commit (drain_batch refuses clock batch) (started p) x failed,
      elim (tx-queue begin commit (drain_batch refuses clock batch) (started p)) [
        | inl same ↦ (0, same ∙ sym (append-nil p.queue))
        | inr ran ↦
            let (k, rest) = loop-queue refuses clock (due batch p.outbox) (started p) in
            (k, ran ∙ ap (λ y. y.1.queue) (batch_runs batch (started p)) ∙ rest)
      ],
    ),
  )
