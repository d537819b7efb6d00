-- ===== src/Payments/Repo.antt =====
-- adapter/storage/memory/payment.go: `PaymentRepo`, its state and the methods on payment
-- intents. Each method holds the mutex from start to end, so it is one step on the state.
pub mod Products
pub mod Events
pub mod Refunds
pub mod Listings
use vk_agregator.Base.{
  String, Bool, true, false, not, ◌&&◌, Option, none, some, List, [], ◌∷◌, ◌++◌, Uuid, nil_uuid,
  nat_beq, if◌then◌else◌,
}
use vk_agregator.Base.Text.{trim_space}
use vk_agregator.Base.Eq.{◌==◌, uuid_key, text_key}
use vk_agregator.Base.Int.{pos, int_beq}
use vk_agregator.Base.Dict.{Dict, lookup, insert, remove, contains, lookup_or}
use vk_agregator.Base.Action.{
  Action, Result, ok, err, Error, not_found, conflict, pure, raise, or_raise, gets, modify,
  raise_if, ◌>>=◌, ◌>>◌,
}
use vk_agregator.Domain.Billing.{Time}
use vk_agregator.Domain.Payment.{
  PaymentProviderCode, provider_mock, currency_rub, IntentStatus, intent_status_beq, RefundStatus,
  PaymentProduct, PaymentIntent, PaymentEvent, PaymentRefund,
}
use vk_agregator.Billing.{or_uuid}

pub record PaymentRepo : Type 0 where
  pub products_by_id : Dict Uuid PaymentProduct
  pub product_id_by_code : Dict String Uuid
  pub intents_by_id : Dict Uuid PaymentIntent
  pub intent_id_by_key : Dict String Uuid
  pub intent_id_by_provider : Dict String Uuid
  pub intent_ids_by_user : Dict Uuid (List Uuid)
  pub events_by_id : Dict Uuid PaymentEvent
  pub event_id_by_dedup : Dict String Uuid
  pub event_ids : List Uuid
  pub refunds_by_id : Dict Uuid PaymentRefund
  pub refund_id_by_key : Dict String Uuid
  pub refund_id_by_provider : Dict String Uuid

abbrev pub new_payment_repo : PaymentRepo
new_payment_repo = record {
  products_by_id = [];
  product_id_by_code = [];
  intents_by_id = [];
  intent_id_by_key = [];
  intent_id_by_provider = [];
  intent_ids_by_user = [];
  events_by_id = [];
  event_id_by_dedup = [];
  event_ids = [];
  refunds_by_id = [];
  refund_id_by_key = [];
  refund_id_by_provider = [];
}

-- A text, or another one where it is empty.
abbrev pub or_text : String → String → String
or_text a b = if a == "" then b else a

abbrev pub or_created : IntentStatus → IntentStatus
or_created IntentStatus.unset = IntentStatus.created
or_created s = s

abbrev pub or_refund_created : RefundStatus → RefundStatus
or_refund_created RefundStatus.unset = RefundStatus.created
or_refund_created s = s

abbrev pub is_processed : PaymentEvent → Bool
is_processed event = elim event.processed_at [ none ↦ false | some _ ↦ true ]

-- `_, ok := index[key]; ok && key != ""`, for an index of optional keys.
abbrev pub taken : String → Dict String Uuid → Bool
taken key index = not (key == "") && contains key index

-- `existingID, ok := index[key]; ok && existingID != id`
abbrev pub taken_by_another : String → Uuid → Dict String Uuid → Bool
taken_by_another key id index = elim (lookup key index) [
  | none ↦ false
  | some owner ↦ not (owner == id)
]

-- `if key != "" { index[key] = id }`
abbrev pub index_if_set : String → Uuid → Dict String Uuid → Dict String Uuid
index_if_set key id index = if key == "" then index else insert key id index

-- An intent as it is stored, and as the caller sees it afterwards.
unfoldable pub intent_row : Uuid → Time → PaymentIntent → PaymentIntent
intent_row id now intent = record intent {
  id = or_uuid intent.id id;
  status = or_created intent.status;
  currency = or_text intent.currency currency_rub;
  provider = or_text intent.provider provider_mock;
  account_id = or_uuid intent.account_id intent.user_id;
  metadata = or_text intent.metadata "{}";
  created_at = now;
  updated_at = now;
}

abbrev pub list_for_owner : Uuid → Uuid → PaymentRepo → PaymentRepo
list_for_owner owner id r = record r {
  intent_ids_by_user =
      insert owner (id ∷ lookup_or [] owner r.intent_ids_by_user) r.intent_ids_by_user;
}

abbrev pub store_intent : PaymentIntent → PaymentRepo → PaymentRepo
store_intent intent r = record r { intents_by_id = insert intent.id intent r.intents_by_id }

abbrev pub index_intent : PaymentIntent → PaymentRepo → PaymentRepo
index_intent intent r = record r {
  intent_id_by_key = insert intent.idempotency_key intent.id r.intent_id_by_key;
  intent_id_by_provider = index_if_set intent.provider_payment_id intent.id r.intent_id_by_provider;
}

unfoldable pub create_intent : Uuid → Time → PaymentIntent → Action PaymentRepo PaymentIntent
unfolding intent_row
create_intent id now intent = do
  raise_if (← gets λ r. contains intent.idempotency_key r.intent_id_by_key) conflict
  raise_if (← gets λ r. taken intent.provider_payment_id r.intent_id_by_provider) conflict
  let row = intent_row id now intent
  modify λ r. index_intent row (store_intent row r)
  modify (list_for_owner row.user_id row.id)
  modify λ r.
      if not (row.account_id == nil_uuid) && not (row.account_id == row.user_id)
      then list_for_owner row.account_id row.id r
      else r
  pure row

unfoldable pub get_intent_by_id : Uuid → Action PaymentRepo PaymentIntent
get_intent_by_id id = do or_raise (← gets λ r. lookup id r.intents_by_id) not_found

-- An index leads to a row; where it did not, Go would answer with its zero value.
unfoldable pub get_intent_by_idempotency_key : String → Action PaymentRepo PaymentIntent
get_intent_by_idempotency_key key = do
  id ← or_raise (← gets λ r. lookup key r.intent_id_by_key) not_found
  or_raise (← gets λ r. lookup id r.intents_by_id) not_found

unfoldable pub set_intent_provider_state :
    Time → Uuid → IntentStatus → String → String → Action PaymentRepo (Unit {0})
set_intent_provider_state now id status provider_payment_id confirmation_url = do
  intent ← or_raise (← gets λ r. lookup id r.intents_by_id) not_found
  raise_if
      (← gets λ r.
        not (provider_payment_id == "")
        && taken_by_another provider_payment_id id r.intent_id_by_provider)
      conflict
  modify λ r. record r {
    intent_id_by_provider = index_if_set provider_payment_id id r.intent_id_by_provider;
  }
  let row = record intent {
    status = status;
    provider_payment_id = provider_payment_id;
    confirmation_url = confirmation_url;
    updated_at = now;
  }
  modify λ r. record r { intents_by_id = insert id row r.intents_by_id }

unfoldable pub get_intent_by_provider_payment_id :
    PaymentProviderCode → String → Action PaymentRepo PaymentIntent
get_intent_by_provider_payment_id provider provider_payment_id = do
  id ← or_raise (← gets λ r. lookup provider_payment_id r.intent_id_by_provider) not_found
  intent ← or_raise (← gets λ r. lookup id r.intents_by_id) not_found
  raise_if (not (intent.provider == provider)) not_found
  pure intent

-- A compare and swap of the status.
unfoldable pub update_intent_status :
    Time → Uuid → IntentStatus → IntentStatus → Action PaymentRepo (Unit {0})
update_intent_status now id from to = do
  intent ← or_raise (← gets λ r. lookup id r.intents_by_id) not_found
  raise_if (not (intent_status_beq intent.status from)) conflict
  let row = record intent { status = to; updated_at = now }
  modify λ r. record r { intents_by_id = insert id row r.intents_by_id }

unfoldable pub update_intent_metadata : Time → Uuid → String → Action PaymentRepo (Unit {0})
update_intent_metadata now id metadata = do
  intent ← or_raise (← gets λ r. lookup id r.intents_by_id) not_found
  let row = record intent { metadata = or_text metadata "{}"; updated_at = now }
  modify λ r. record r { intents_by_id = insert id row r.intents_by_id }
