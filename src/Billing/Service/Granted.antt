-- ===== src/Billing/Service/Granted.antt =====
-- A key that a grant has used, and the owner it was granted to, stay known (service/billingservice).
use vk_agregator.Base.{◌≡◌, true, false, Uuid, String, arith}
use vk_agregator.Base.Eq.{uuid_key, text_key}
use vk_agregator.Base.Dict.{contains, lookup_or, lookup-insert}
use vk_agregator.Billing.Repo.{BillingRepo, append_locked, append_entry, key_of_owner}
use vk_agregator.Billing.Service.Lasting.{IsLasting}

-- The ledger key is used, and the owner of that key text has an account.
abbrev pub IsGranted : String → String → BillingRepo → Type 0
IsGranted key owner r =
    (lookup_or false key r.ledger_keys ≡ true) × (contains owner r.by_user ≡ true)

pub IsGranted-IsLasting :
    (uuid_string : Uuid → String) (key owner : String) → IsLasting uuid_string (IsGranted key owner)
unfolding append_entry append_locked
IsGranted-IsLasting uuid_string key owner = record {
  appends = λ d e. record {
    kept = λ r h. ground (arith, h, lookup-insert e.idempotency_key key true r.ledger_keys);
  };
  opens =
      λ a r h. ground (arith, h, lookup-insert (key_of_owner uuid_string a) owner a.id r.by_user);
}
