-- ===== src/Payments/Repo/Events.antt =====
-- adapter/storage/memory/payment.go: the inbox of provider webhooks.
use vk_agregator.Base.{Bool, true, false, some, [], ◌∷◌, ◌++◌, Uuid, nat_beq, if◌then◌else◌}
use vk_agregator.Base.Eq.{uuid_key, text_key}
use vk_agregator.Base.Dict.{lookup, insert, contains}
use vk_agregator.Base.Action.{Action, not_found, pure, or_raise, gets, modify, ◌>>=◌, ◌>>◌}
use vk_agregator.Domain.Billing.{Time}
use vk_agregator.Domain.Payment.{PaymentEvent}
use vk_agregator.Billing.{or_uuid}
use vk_agregator.Payments.Repo.{PaymentRepo, is_processed, or_text}

-- An event as it is stored, and as the caller sees it afterwards.
abbrev pub event_row : Uuid → Time → PaymentEvent → PaymentEvent
event_row id now event = record event {
  id = or_uuid event.id id;
  payload = or_text event.payload "{}";
  received_at = now;
  updated_at = now;
}

abbrev pub store_event : PaymentEvent → PaymentRepo → PaymentRepo
store_event row r = record r {
  events_by_id = insert row.id row r.events_by_id;
  event_id_by_dedup = insert row.dedup_key row.id r.event_id_by_dedup;
  event_ids = r.event_ids ++ row.id ∷ [];
}

-- `CreateEvent`: whether the event is new, and the event as the caller sees it afterwards.
unfoldable pub create_event : Uuid → Time → PaymentEvent → Action PaymentRepo (Bool × PaymentEvent)
create_event id now event = do
  known ← gets λ r. contains event.dedup_key r.event_id_by_dedup
  if known
      then pure (false, event)
      else do modify (store_event (event_row id now event)); pure (true, event_row id now event)

unfoldable pub get_event_by_id : Uuid → Action PaymentRepo PaymentEvent
get_event_by_id id = do or_raise (← gets λ r. lookup id r.events_by_id) not_found

unfoldable pub mark_event_processed : Time → Uuid → Time → Action PaymentRepo (Unit {0})
mark_event_processed now id processed_at = do
  event ← or_raise (← gets λ r. lookup id r.events_by_id) not_found
  let at = if nat_beq processed_at 0 then now else processed_at
  let row = record event { processed_at = some at; updated_at = at }
  if is_processed event
      then pure tt
      else modify λ r. record r { events_by_id = insert id row r.events_by_id }
