-- ===== src/Payments/Repo/Listings.antt =====
-- adapter/storage/memory/payment.go: the listings of products, intents, events and refunds, with the
-- filters of domain/repositories.go. The rows of a map come in the order of the association list,
-- which is one of the orders that Go may walk it in, before they are sorted.
use vk_agregator.Base.{
  ℕ, suc, String, Bool, true, false, not, ◌&&◌, ◌||◌, Option, none, some, List, [], ◌∷◌, Uuid,
  nat_beq, ltb, if◌then◌else◌,
}
use vk_agregator.Base.Lists.{any, take, drop, retain, sort_by}
use vk_agregator.Base.Text.{trim_space, text_before}
use vk_agregator.Base.Eq.{◌==◌, uuid_key, text_key}
use vk_agregator.Base.Int.{int_beq, ltb_ℤ}
use vk_agregator.Base.Dict.{Dict, lookup, values}
use vk_agregator.Base.Action.{Action, gets}
use vk_agregator.Domain.Billing.{Time}
use vk_agregator.Domain.Payment.{
  PaymentProviderCode, IntentStatus, intent_status_beq, RefundStatus, refund_status_beq,
  PaymentProduct, PaymentIntent, PaymentEvent, PaymentRefund,
}
use vk_agregator.Payments.Repo.{PaymentRepo, is_processed}

-- A pointer to nothing restricts nothing.
abbrev admits : {A : Type 0} → Option A → (A → Bool) → Bool
admits none f = true
admits (some a) f = f a

-- An empty text restricts nothing.
abbrev admits_text : String → String → Bool
admits_text wanted s = wanted == "" || s == wanted

-- One page: what stands from `offset` on, `limit` rows at most.
abbrev page : {A : Type 0} → ℕ → ℕ → List A → List A
page limit offset rows = take limit (drop offset rows)

abbrev cheaper : PaymentProduct → PaymentProduct → Bool
cheaper a b =
    if int_beq a.amount b.amount then text_before a.code b.code else ltb_ℤ a.amount b.amount

unfoldable pub list_active_products : Action PaymentRepo (List PaymentProduct)
list_active_products =
    gets λ r. sort_by cheaper (retain (λ product. product.is_active) (values r.products_by_id))

abbrev same_flag : Bool → Bool → Bool
same_flag true b = b
same_flag false b = not b

abbrev newer_product : PaymentProduct → PaymentProduct → Bool
newer_product a b =
    if nat_beq a.created_at b.created_at
    then text_before a.code b.code
    else ltb b.created_at a.created_at

unfoldable pub list_products : Option Bool → ℕ → ℕ → Action PaymentRepo (List PaymentProduct)
list_products active limit offset = gets λ r. page limit offset (
    sort_by newer_product
      (retain (λ product. admits active (same_flag product.is_active)) (values r.products_by_id)))

-- A status of `unset`, and an empty text, restrict nothing.
pub record PaymentIntentFilter : Type 0 where
  pub intent_id : Option Uuid
  pub user_id : Option Uuid
  pub account_id : Option Uuid
  pub status : IntentStatus
  pub statuses : List IntentStatus
  pub provider : PaymentProviderCode
  pub provider_payment_id : String
  pub source : String
  pub updated_before : Option Time

abbrev is_set : IntentStatus → Bool
is_set IntentStatus.unset = false
is_set _ = true

-- The set is `nil` where it would be empty.
unfoldable pub payment_intent_status_set : PaymentIntentFilter → List IntentStatus
payment_intent_status_set f = retain is_set (f.status ∷ f.statuses)

abbrev in_set : List IntentStatus → IntentStatus → Bool
in_set statuses s = any (λ x. intent_status_beq x s) statuses

abbrev admits_set : List IntentStatus → IntentStatus → Bool
admits_set [] s = true
admits_set (x ∷ xs) s = in_set (x ∷ xs) s

abbrev newer_intent : PaymentIntent → PaymentIntent → Bool
newer_intent a b = ltb b.created_at a.created_at

unfoldable pub intent_list_matching_owner_locked :
    (PaymentIntent → Bool) → PaymentRepo → List PaymentIntent
intent_list_matching_owner_locked matches r =
    sort_by newer_intent (retain matches (values r.intents_by_id))

abbrev or_else : {A : Type 0} → List A → List A → List A
or_else [] ys = ys
or_else (x ∷ xs) ys = x ∷ xs

-- The intents of an account; where it has none, those of a user of that identifier.
unfoldable pub intent_list_for_owner_locked : Uuid → PaymentRepo → List PaymentIntent
unfolding intent_list_matching_owner_locked
intent_list_for_owner_locked owner r =
    or_else (intent_list_matching_owner_locked (λ intent. intent.account_id == owner) r)
      (intent_list_matching_owner_locked (λ intent. intent.user_id == owner) r)

unfoldable pub list_intents_by_user : Uuid → ℕ → ℕ → Action PaymentRepo (List PaymentIntent)
list_intents_by_user user limit offset =
    gets λ r. page limit offset (intent_list_for_owner_locked user r)

-- The `source` that encoding/json reads from a metadata document, if it reads it.
module _ (json_source : String → Option String) where
  unfoldable pub payment_intent_source : PaymentIntent → String
  payment_intent_source intent =
      if intent.metadata == ""
      then ""
      else elim (json_source intent.metadata) [ none ↦ "" | some source ↦ trim_space source ]

  unfoldable pub payment_intent_matches_filter : PaymentIntent → PaymentIntentFilter → Bool
  unfolding payment_intent_status_set payment_intent_source
  payment_intent_matches_filter intent f =
      admits f.intent_id (λ id. intent.id == id)
      && admits f.user_id (λ u. intent.user_id == u || intent.account_id == u)
      && admits f.account_id (λ a. intent.account_id == a)
      && admits_set (payment_intent_status_set f) intent.status
      && admits_text f.provider intent.provider
      && admits_text (trim_space f.provider_payment_id) intent.provider_payment_id
      && admits_text (trim_space f.source) (payment_intent_source intent)
      && admits f.updated_before (λ t. not (ltb t intent.updated_at))

  -- The rows that the filter is tried on.
  abbrev candidates : PaymentIntentFilter → PaymentRepo → List PaymentIntent
  candidates f r = elim f.account_id [
    | some account ↦ intent_list_for_owner_locked account r
    | none ↦ elim f.user_id [
      | some user ↦ intent_list_for_owner_locked user r
      | none ↦ sort_by newer_intent (values r.intents_by_id)
    ]
  ]

  unfoldable pub list_intents :
      PaymentIntentFilter → ℕ → ℕ → Action PaymentRepo (List PaymentIntent)
  unfolding payment_intent_matches_filter intent_list_for_owner_locked
  list_intents f limit offset = gets λ r.
      page limit offset (retain (λ intent. payment_intent_matches_filter intent f) (candidates f r))

pub record PaymentReconciliationFilter : Type 0 where
  pub provider : PaymentProviderCode
  pub statuses : List IntentStatus
  pub updated_before : Time

abbrev or_pending : List IntentStatus → List IntentStatus
or_pending [] = IntentStatus.provider_pending ∷ IntentStatus.waiting_for_user ∷ []
or_pending (s ∷ statuses) = s ∷ statuses

abbrev stale : Time → PaymentReconciliationFilter → PaymentIntent → Bool
stale before f intent =
    intent.provider == f.provider
    && in_set (or_pending f.statuses) intent.status
    && not (intent.provider_payment_id == "")
    && not (ltb before intent.updated_at)

unfoldable pub list_intents_for_reconciliation :
    Time → PaymentReconciliationFilter → ℕ → Action PaymentRepo (List PaymentIntent)
list_intents_for_reconciliation now f limit = gets λ r.
    let before = if nat_beq f.updated_before 0 then now else f.updated_before in
    take limit (
      sort_by (λ a b. ltb a.updated_at b.updated_at)
        (retain (stale before f) (values r.intents_by_id)))

-- The rows of a list of identifiers; each of them has one.
abbrev rows_of : {V : Type 0} → Dict Uuid V → List Uuid → List V
rows_of m [] = []
rows_of m (id ∷ ids) = elim (lookup id m) [ none ↦ rows_of m ids | some v ↦ v ∷ rows_of m ids ]

abbrev pub is_waiting : PaymentProviderCode → PaymentEvent → Bool
is_waiting provider event = event.provider == provider && not (is_processed event)

-- The loop tests the limit after it has taken an event, so it takes one at least.
unfoldable pub list_unprocessed_events :
    PaymentProviderCode → ℕ → Action PaymentRepo (List PaymentEvent)
list_unprocessed_events provider limit = gets λ r.
    take (if nat_beq limit 0 then 1 else limit)
      (retain (is_waiting provider) (rows_of r.events_by_id r.event_ids))

pub record PaymentEventFilter : Type 0 where
  pub provider : PaymentProviderCode
  pub provider_payment_id : String
  pub processed : Option Bool

unfoldable pub list_events : PaymentEventFilter → ℕ → ℕ → Action PaymentRepo (List PaymentEvent)
list_events f limit offset = gets λ r. page limit offset (
    sort_by (λ a b. ltb a.received_at b.received_at)
      (retain
        (λ event.
          admits_text f.provider event.provider
          && admits_text (trim_space f.provider_payment_id) event.provider_payment_id
          && admits f.processed (same_flag (is_processed event)))
        (rows_of r.events_by_id r.event_ids)))

pub record PaymentWebhookInboxStats : Type 0 where
  pub provider : PaymentProviderCode
  pub unprocessed_events : ℕ
  pub oldest_unprocessed_received_at : Option Time

abbrev older : Time → Option Time → Option Time
older t none = some t
older t (some oldest) = if ltb t oldest then some t else some oldest

abbrev count_event :
    PaymentProviderCode → PaymentWebhookInboxStats → PaymentEvent → PaymentWebhookInboxStats
count_event provider stats event =
    if is_waiting provider event
    then record stats {
      unprocessed_events = suc stats.unprocessed_events;
      oldest_unprocessed_received_at = older event.received_at stats.oldest_unprocessed_received_at;
    }
    else stats

abbrev count_events :
    PaymentProviderCode → PaymentWebhookInboxStats → List PaymentEvent → PaymentWebhookInboxStats
count_events provider stats [] = stats
count_events provider stats (event ∷ events) =
    count_events provider (count_event provider stats event) events

unfoldable pub webhook_inbox_stats :
    PaymentProviderCode → Action PaymentRepo PaymentWebhookInboxStats
webhook_inbox_stats provider = gets λ r.
    let none_yet : PaymentWebhookInboxStats = record {
      provider = provider;
      unprocessed_events = 0;
      oldest_unprocessed_received_at = none;
    } in
    count_events provider none_yet (rows_of r.events_by_id r.event_ids)

pub record PaymentRefundFilter : Type 0 where
  pub intent_id : Option Uuid
  pub status : RefundStatus

abbrev admits_refund_status : RefundStatus → RefundStatus → Bool
admits_refund_status RefundStatus.unset s = true
admits_refund_status wanted s = refund_status_beq s wanted

unfoldable pub list_refunds : PaymentRefundFilter → ℕ → ℕ → Action PaymentRepo (List PaymentRefund)
list_refunds f limit offset = gets λ r. page limit offset (
    sort_by (λ a b. ltb b.created_at a.created_at)
      (retain
        (λ refund.
          admits f.intent_id (λ id. refund.intent_id == id)
          && admits_refund_status f.status refund.status)
        (values r.refunds_by_id)))
