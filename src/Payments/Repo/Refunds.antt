-- ===== src/Payments/Repo/Refunds.antt =====
-- adapter/storage/memory/payment.go: the methods on refunds.
use vk_agregator.Base.{String, not, ◌&&◌, Uuid}
use vk_agregator.Base.Eq.{◌==◌, uuid_key, text_key}
use vk_agregator.Base.Dict.{lookup, insert, contains}
use vk_agregator.Base.Action.{
  Action, not_found, conflict, pure, or_raise, gets, modify, raise_if, ◌>>=◌, ◌>>◌,
}
use vk_agregator.Domain.Billing.{Time}
use vk_agregator.Domain.Payment.{RefundStatus, PaymentRefund}
use vk_agregator.Billing.{or_uuid}
use vk_agregator.Payments.Repo.{
  PaymentRepo, taken, taken_by_another, index_if_set, or_refund_created,
}

unfoldable pub create_refund : Uuid → Time → PaymentRefund → Action PaymentRepo PaymentRefund
create_refund id now refund = do
  raise_if (← gets λ r. contains refund.idempotency_key r.refund_id_by_key) conflict
  raise_if (← gets λ r. taken refund.provider_refund_id r.refund_id_by_provider) conflict
  let row = record refund {
    id = or_uuid refund.id id;
    status = or_refund_created refund.status;
    created_at = now;
    updated_at = now;
  }
  modify λ r. record r {
    refunds_by_id = insert row.id row r.refunds_by_id;
    refund_id_by_key = insert row.idempotency_key row.id r.refund_id_by_key;
    refund_id_by_provider = index_if_set row.provider_refund_id row.id r.refund_id_by_provider;
  }
  pure row

unfoldable pub get_refund_by_idempotency_key : String → Action PaymentRepo PaymentRefund
get_refund_by_idempotency_key key = do
  id ← or_raise (← gets λ r. lookup key r.refund_id_by_key) not_found
  or_raise (← gets λ r. lookup id r.refunds_by_id) not_found

unfoldable pub set_refund_provider_state :
    Time → Uuid → String → RefundStatus → Action PaymentRepo (Unit {0})
set_refund_provider_state now id provider_refund_id status = do
  refund ← or_raise (← gets λ r. lookup id r.refunds_by_id) not_found
  raise_if
      (← gets λ r.
        not (provider_refund_id == "")
        && taken_by_another provider_refund_id id r.refund_id_by_provider)
      conflict
  modify λ r. record r {
    refund_id_by_provider = index_if_set provider_refund_id id r.refund_id_by_provider;
  }
  let row = record refund {
    provider_refund_id = provider_refund_id;
    status = status;
    updated_at = now;
  }
  modify λ r. record r { refunds_by_id = insert id row r.refunds_by_id }
