-- ===== src/Jobs/Outbox/Relay/Loop.antt =====
-- The loop of a drain (service/outboxrelay/relay.go): what it delivers, and what it answers.
use mathlib.Core.Path.{subst}
use mathlib.Core.List.{append_assoc, append-nil}
use vk_agregator.Base.{
  ℕ, zero, suc, ◌+◌, Bool, true, false, not, ◌&&◌, ◌≡◌, refl, sym, ap, ◌∙◌, ◌⊎◌, inl, inr, Option,
  none, some, List, [], ◌∷◌, ◌++◌, if◌then◌else◌, arith, nat_beq, Option-cases,
}
use vk_agregator.Base.Lists.{any, length, take, drop}
use vk_agregator.Base.Eq.{◌==◌, text_key, uuid_key}
use vk_agregator.Base.Action.{
  Action, Result, ok, err, Error, other, chain_ok, chain-cases, chain-by, chain-err, ◌>>◌,
}
use vk_agregator.Domain.Billing.{Time}
use vk_agregator.Jobs.Outbox.{
  OutboxRepo, OutboxEvent, has_id, change_first, as_published, mark_published,
}
use vk_agregator.Jobs.Outbox.Pending.{
  waiting, waiting-has_id, is_distinct, publish-waiting, publish-distinct,
}
use vk_agregator.Jobs.Outbox.Relay.{
  Task, Pipe, task_of, event_job_queued, enqueue, publish, drain_event, drain_events,
}

-- The tasks that an event stands for: one for a queued job, none for any other event.
abbrev pub tasks_of_event : OutboxEvent → List Task
tasks_of_event e =
    if not (e.event_type == event_job_queued)
    then []
    else elim e.payload [ none ↦ [] | some body ↦ task_of body ∷ [] ]

abbrev pub tasks_of : List OutboxEvent → List Task
tasks_of [] = []
tasks_of (e ∷ es) = tasks_of_event e ++ tasks_of es

-- A queued job's event of which the payload cannot be read.
abbrev pub is_unreadable : OutboxEvent → Bool
is_unreadable e =
    e.event_type == event_job_queued && (elim e.payload [ none ↦ true | some body ↦ false ])

abbrev pub refusal : (Task → Option Error) → OutboxEvent → Option Error
refusal refuses e =
    if not (e.event_type == event_job_queued)
    then none
    else elim e.payload [ none ↦ some (other "invalid JSON") | some body ↦ refuses (task_of body) ]

abbrev pub or_else : Option Error → Option Error → Option Error
or_else (some x) y = some x
or_else none y = y

abbrev pub result_of : Option Error → Result (Unit {0})
result_of (some x) = err x
result_of none = ok tt

-- What stops a batch: the first of its events that cannot be read, or of which the queue refuses the
-- task, with its error.
abbrev pub first_refusal : (Task → Option Error) → List OutboxEvent → Option Error
first_refusal refuses [] = none
first_refusal refuses (e ∷ es) = or_else (refusal refuses e) (first_refusal refuses es)

-- The events that a drain takes, and those that it leaves for later.
abbrev pub limit : ℕ → ℕ
limit batch = if nat_beq batch 0 then 1 else batch

abbrev pub due : ℕ → OutboxRepo → List OutboxEvent
due batch events = take (limit batch) (waiting events)

abbrev pub later : ℕ → OutboxRepo → List OutboxEvent
later batch events = drop (limit batch) (waiting events)

pub take-drop : (n : ℕ) (es : List OutboxEvent) → take n es ++ drop n es ≡ es
take-drop zero es = refl
take-drop (suc n) [] = refl
take-drop (suc n) (e ∷ es) = ap (λ xs. e ∷ xs) (take-drop n es)

module _ (refuses : Task → Option Error) (clock : ℕ → Time) where
  -- A turn that answers `ok`.
  abbrev after_turn : OutboxEvent → Pipe → Pipe
  after_turn e p = record {
    outbox = change_first e.id (as_published (clock p.published)) p.outbox;
    queue = p.queue ++ tasks_of_event e;
    published = suc p.published;
  }

  turn_done :
      (e : OutboxEvent) (p : Pipe)
      → (drain_event refuses clock e p).0 ≡ ok tt
      → ((drain_event refuses clock e p).1 ≡ after_turn e p) × (is_unreadable e ≡ false)
  unfolding drain_event publish enqueue mark_published
  turn_done e p done = ground (arith, done, append-nil p.queue)

  turn-queue :
      (e : OutboxEvent) (p : Pipe)
      → ((drain_event refuses clock e p).1.queue ≡ p.queue)
        ⊎ ((drain_event refuses clock e p).1.queue ≡ p.queue ++ tasks_of_event e)
  unfolding drain_event publish enqueue mark_published
  turn-queue e p = ground arith

  turn_answers :
      (e : OutboxEvent) (p : Pipe)
      → any (has_id e.id) p.outbox ≡ true
      → (drain_event refuses clock e p).0 ≡ result_of (refusal refuses e)
  unfolding drain_event publish enqueue mark_published
  turn_answers e p there = ground (arith, there)

  -- What the loop has done when it answers `ok`.
  pub record Drained (es rest : List OutboxEvent) (p t : Pipe) : Type 0 where
    pub count : t.published ≡ p.published + length es
    pub queue : t.queue ≡ p.queue ++ tasks_of es
    pub left : waiting t.outbox ≡ rest
    pub readable : any is_unreadable es ≡ false

  loop_cons :
      (e : OutboxEvent) (es : List OutboxEvent) (p : Pipe)
      → drain_events refuses clock (e ∷ es) p
        ≡ (drain_event refuses clock e >> drain_events refuses clock es) p
  unfolding drain_events
  loop_cons e es p = refl

  pub loop_done :
      (es rest : List OutboxEvent) (p : Pipe)
      → is_distinct p.outbox ≡ true
      → waiting p.outbox ≡ es ++ rest
      → (drain_events refuses clock es p).0 ≡ ok tt
      → Drained es rest p (drain_events refuses clock es p).1
  loop_done [] rest p d w done =
      unfold drain_events in
      record { count = omega arith; queue = sym (append-nil p.queue); left = w; readable = refl }
  loop_done (e ∷ es) rest p d w done =
      let goes = loop_cons e es p in
      let (_, went, same) =
        chain_ok (drain_event refuses clock e) (λ _. drain_events refuses clock es) p tt
          (ap (λ x. x.0) (sym goes) ∙ done) in
      let t = (drain_event refuses clock e p).1 in
      let (moved, readable) = turn_done e p went in
      let end_ =
        loop_done es rest t
          (ap (λ x. is_distinct x.outbox) moved
            ∙ publish-distinct e.id (clock p.published) p.outbox
            ∙ d)
          (ap (λ x. waiting x.outbox) moved
            ∙ publish-waiting (clock p.published) e (es ++ rest) p.outbox d w)
          (ap (λ x. x.0) (sym (goes ∙ same)) ∙ done) in
      subst (Drained (e ∷ es) rest p) (ap (λ x. x.1) (sym (goes ∙ same))) (record {
        count = end_.count ∙ omega (arith, ap (λ x. x.published) moved);
        queue =
            end_.queue
            ∙ ap (λ x. x.queue ++ tasks_of es) moved
            ∙ append_assoc p.queue (tasks_of_event e) (tasks_of es);
        left = end_.left;
        readable = ground (arith, readable, end_.readable);
      })

  -- What the loop answers.
  pub loop_answers :
      (es rest : List OutboxEvent) (p : Pipe)
      → is_distinct p.outbox ≡ true
      → waiting p.outbox ≡ es ++ rest
      → (drain_events refuses clock es p).0 ≡ result_of (first_refusal refuses es)
  loop_answers [] rest p d w = unfold drain_events in refl
  loop_answers (e ∷ es) rest p d w =
      let goes = loop_cons e es p in
      let m = drain_event refuses clock e in
      let k : Unit {0} → Action Pipe (Unit {0}) = λ _. drain_events refuses clock es in
      let turn = turn_answers e p (waiting-has_id e (es ++ rest) p.outbox w) in
      elim (Option-cases (refusal refuses e)) [
        | inr (x, stops) ↦
            ap (λ y. y.0)
              (goes ∙ chain-err m k p (ap (λ a. (a, (m p).1)) (turn ∙ ap result_of stops)))
            ∙ rw stops refl
        | inl none_stops ↦
            let went = turn ∙ ap result_of none_stops in
            let moved = (turn_done e p went).0 in
            ap (λ y. y.0) (goes ∙ chain-by m k p (ap (λ a. (a, (m p).1)) went))
            ∙ loop_answers es rest (m p).1
                (ap (λ x. is_distinct x.outbox) moved
                  ∙ publish-distinct e.id (clock p.published) p.outbox
                  ∙ d)
                (ap (λ x. waiting x.outbox) moved
                  ∙ publish-waiting (clock p.published) e (es ++ rest) p.outbox d w)
            ∙ rw none_stops refl
      ]

  -- However the loop ends, the queue has taken the tasks of the events that it came to.
  pub loop-queue :
      (es : List OutboxEvent) (p : Pipe)
      → (k : ℕ) × ((drain_events refuses clock es p).1.queue ≡ p.queue ++ tasks_of (take k es))
  loop-queue [] p = (0, unfold drain_events in sym (append-nil p.queue))
  loop-queue (e ∷ es) p =
      let goes = loop_cons e es p in
      let t = (drain_event refuses clock e p).1 in
      elim (chain-cases (drain_event refuses clock e) (λ _. drain_events refuses clock es) p) [
        | inl (x, _, failed) ↦ elim (turn-queue e p) [
          | inl same ↦ (0, ap (λ y. y.1.queue) (goes ∙ failed) ∙ same ∙ sym (append-nil p.queue))
          | inr taken ↦ (
            1,
            ap (λ y. y.1.queue) (goes ∙ failed)
                ∙ taken
                ∙ ap (λ ts. p.queue ++ ts) (sym (append-nil (tasks_of_event e))),
          )
        ]
        | inr (u, went, same) ↦
            let (k, rest) = loop-queue es t in
            (
              suc k,
              ap (λ y. y.1.queue) (goes ∙ same)
                  ∙ rest
                  ∙ ap (λ x. x.queue ++ tasks_of (take k es)) (turn_done e p (went_ok u went)).0
                  ∙ append_assoc p.queue (tasks_of_event e) (tasks_of (take k es)),
            )
      ]
    where
      went_ok :
          (u : Unit {0})
          → drain_event refuses clock e p ≡ (ok u, (drain_event refuses clock e p).1)
          → (drain_event refuses clock e p).0 ≡ ok tt
      went_ok u h = ap (λ x. x.0) h
