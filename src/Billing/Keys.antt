-- ===== src/Billing/Keys.antt =====
-- The texts by which rows are found again: user keys and idempotency keys. The text of an
-- identifier is google/uuid's, and a parameter.
use Prim.Native.String.{◌++◌}
use vk_agregator.Base.{String, Uuid}
use vk_agregator.Domain.Billing.{Currency}

module _ (uuid_string : Uuid → String) where
  unfoldable pub user_currency_key : Uuid → Currency → String
  user_currency_key user currency = uuid_string user ++ ("|" ++ currency)

  unfoldable pub grant_open_key : Uuid → String
  grant_open_key account = "grant:open:" ++ uuid_string account

  unfoldable pub resv_key : Uuid → String
  resv_key job = "resv:" ++ uuid_string job

  unfoldable pub cap_key : Uuid → String
  cap_key reservation = "cap:" ++ uuid_string reservation

  unfoldable pub rel_key : Uuid → String
  rel_key reservation = "rel:" ++ uuid_string reservation

  unfoldable pub refund_key : Uuid → String
  refund_key job = "refund:" ++ uuid_string job

unfoldable pub reserve_entry_key : String → String
reserve_entry_key key = "reserve:" ++ key
