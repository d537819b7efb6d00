-- ===== src/Jobs/Outbox.antt =====
-- adapter/storage/memory/memory.go: `OutboxRepo`, the events that wait to be published.
pub mod Pending
pub mod Relay
use vk_agregator.Base.{
  ℕ, suc, String, Bool, true, false, Option, none, some, List, [], ◌∷◌, ◌++◌, Uuid, nil_uuid,
  if◌then◌else◌, nat_beq,
}
use vk_agregator.Base.Lists.{any, retain, take}
use vk_agregator.Base.Eq.{◌==◌, uuid_key}
use vk_agregator.Base.Action.{
  Action, Result, ok, err, not_found, gets, modify, raise_if, pure, ◌>>=◌, ◌>>◌,
}
use vk_agregator.Domain.Billing.{Time}
use vk_agregator.Domain.JobStatus.{JobStatus}
use vk_agregator.Domain.Job.{OperationType, Modality, Job}
use vk_agregator.Billing.{or_uuid}

-- `unset` is the empty text.
pub data OutboxStatus : Type 0 where
  pending published failed unset : OutboxStatus

-- The body of a job event, which its JSON text stands for.
pub record JobPayload : Type 0 where
  pub job_id : Uuid
  pub status : JobStatus
  pub operation : OperationType
  pub modality : Modality
  pub user_id : Uuid
  pub account_id : Uuid
  pub correlation_id : String
  pub traceparent : String

-- `payload` is `none` where the text is no JSON of that shape.
pub record OutboxEvent : Type 0 where
  pub id : Uuid
  pub aggregate_type : String
  pub aggregate_id : Uuid
  pub event_type : String
  pub payload : Option JobPayload
  pub status : OutboxStatus
  pub attempts : ℕ
  pub next_attempt_at : Time
  pub created_at : Time
  pub published_at : Option Time

abbrev pub OutboxRepo : Type 0
OutboxRepo = List OutboxEvent

abbrev pub is_pending : OutboxStatus → Bool
is_pending OutboxStatus.pending = true
is_pending _ = false

abbrev pub or_pending : OutboxStatus → OutboxStatus
or_pending OutboxStatus.unset = OutboxStatus.pending
or_pending s = s

unfoldable pub as_added : Uuid → Time → OutboxEvent → OutboxEvent
as_added id now e = record e {
  id = or_uuid e.id id;
  status = or_pending e.status;
  created_at = now;
}

unfoldable pub add : Uuid → Time → OutboxEvent → Action OutboxRepo (Unit {0})
add id now e = modify λ events. events ++ as_added id now e ∷ []

-- The loop tests the limit after it has taken an event, so it takes one at least.
unfoldable pub fetch_pending : ℕ → Action OutboxRepo (List OutboxEvent)
fetch_pending limit =
    gets λ events.
      take (if nat_beq limit 0 then 1 else limit) (retain (λ e. is_pending e.status) events)

abbrev pub has_id : Uuid → OutboxEvent → Bool
has_id id e = e.id == id

-- The first event of that identifier, changed.
abbrev pub change_first : Uuid → (OutboxEvent → OutboxEvent) → OutboxRepo → OutboxRepo
change_first id f [] = []
change_first id f (e ∷ es) = if has_id id e then f e ∷ es else e ∷ change_first id f es

abbrev pub on_event : Uuid → (OutboxEvent → OutboxEvent) → Action OutboxRepo (Unit {0})
on_event id f events =
    if any (has_id id) events then (ok tt, change_first id f events) else (err not_found, events)

abbrev pub as_published : Time → OutboxEvent → OutboxEvent
as_published at e = record e { status = OutboxStatus.published; published_at = some at }

unfoldable pub mark_published : Uuid → Time → Action OutboxRepo (Unit {0})
mark_published id at = on_event id (as_published at)

-- `Attempts` does not overflow an int64 in any time that a program runs.
abbrev pub as_failed : Time → OutboxEvent → OutboxEvent
as_failed next e = record e { attempts = suc e.attempts; next_attempt_at = next }

unfoldable pub mark_failed : Uuid → Time → Action OutboxRepo (Unit {0})
mark_failed id next = on_event id (as_failed next)
