-- ===== src/Billing/Tests.antt =====
-- Tests of the ledger repository (adapter/storage/memory/billing.go), and its theorems at concrete
-- inputs.
use Prim.Native.String.{◌++◌}
use vk_agregator.Base.{zero, suc, String, ◌≡◌, refl, Uuid, arith}
use vk_agregator.Base.Int.{pos, ◌+ℤ◌, ◌-ℤ◌, ◌≤ℤ◌}
use vk_agregator.Base.Int64.{◌+₆₄◌, ◌-₆₄◌, neg64, wrap64}
use vk_agregator.Base.Action.{err, conflict, insufficient_credits}
use vk_agregator.Domain.Billing.{
  CreditAccount, CreditReservation, ReservationStatus, currency_credits,
}
use vk_agregator.Billing.{Draw, grant_open_key, reserve_entry_key, user_currency_key}
use vk_agregator.Billing.Repo.{
  BillingRepo, new_billing_repo, create_account, reserve, capture, release, balance,
  available_locked, append_entry, append_locked, placed,
}
use vk_agregator.Billing.Repo.Balance.{IsBalanced}
use vk_agregator.Billing.Repo.Reach.{start, next, creates, reserves, Reach-IsBalanced}
use vk_agregator.Billing.Repo.Holds.{held}
use vk_agregator.Billing.Repo.Solvent.{IsSolvent}
use vk_agregator.Billing.Repo.History.{History, opens, holds, History-IsSolvent, History-available}
use vk_agregator.Billing.Repo.Effects.{reserve-available, capture-once, capture-charges}

-- What a run computes with.
pub runs : Unit {0}
unfolding create_account append_entry append_locked reserve capture release available_locked placed
    ◌+₆₄◌ ◌-₆₄◌ neg64 wrap64 ◌+ℤ◌ ◌-ℤ◌ grant_open_key reserve_entry_key user_currency_key
runs = tt

abbrev pub id_text : Uuid → String
id_text zero = "0"
id_text (suc n) = "1" ++ id_text n

abbrev pub draw : Uuid → Draw
draw n = record { id = n; entry_id = suc n; now = 5 }

abbrev pub wanted : CreditAccount
wanted = record {
  id = 0;
  user_id = 7;
  owner_account_id = 0;
  currency = currency_credits;
  balance_cached = pos 30;
  created_at = 0;
  updated_at = 0;
}

-- An account of 30 credits.
abbrev pub with_account : BillingRepo
with_account = (create_account id_text (draw 2) wanted new_billing_repo).1

abbrev pub hold : CreditReservation
hold = record {
  id = 0;
  account_id = 2;
  owner_account_id = 0;
  job_id = 9;
  amount = pos 10;
  status = ReservationStatus.reserved;
  idempotency_key = "resv:9";
  expires_at = 100;
  created_at = 0;
  updated_at = 0;
}

-- A hold of 10 credits on it.
abbrev pub with_hold : BillingRepo
with_hold = (reserve (draw 4) hold with_account).1

with_hold_amounts : (balance 2 with_hold ≡ pos 30) × (available_locked 2 with_hold ≡ pos 20)
unfolding runs
with_hold_amounts = (refl, refl)

too_much :
    (reserve (draw 6) (record hold { amount = pos 31; idempotency_key = "b" }) with_account).0
    ≡ err insufficient_credits
unfolding runs
too_much = refl

Reach-IsBalanced_example : IsBalanced 2 with_hold
Reach-IsBalanced_example =
    Reach-IsBalanced id_text 2
      (next (next start (creates (draw 2) wanted refl)) (reserves (draw 4) hold))

pub history : History id_text with_hold
unfolding runs
history =
    History.next
      (History.next History.start (opens (draw 2) wanted refl (omega arith) (omega arith)))
      (holds (draw 4) hold (omega arith) refl)

History-available_example :
    (available_locked 2 with_hold ≡ balance 2 with_hold -ℤ held 2 with_hold.reservations)
    × (pos 0 ≤ℤ available_locked 2 with_hold)
    × (available_locked 2 with_hold ≤ℤ balance 2 with_hold)
History-available_example = History-available id_text 2 history

account_IsSolvent : IsSolvent 2 with_account
account_IsSolvent =
    History-IsSolvent id_text 2
      (History.next History.start (opens (draw 2) wanted refl (omega arith) (omega arith)))

reserve-available_example :
    (available_locked 2 with_hold ≡ available_locked 2 with_account -ℤ pos 10)
    × (balance 2 with_hold ≡ balance 2 with_account)
unfolding runs
reserve-available_example =
    reserve-available (draw 4) hold with_account account_IsSolvent (omega arith) refl refl refl

capture-once_example :
    let s = (capture (draw 8) 4 (pos 10) "cap:4" with_hold).1 in
    (capture (draw 9) 4 (pos 3) "again" s ≡ (err conflict, s))
    × (release (draw 9) 4 "rel:4" s ≡ (err conflict, s))
unfolding runs
capture-once_example =
    capture-once (draw 8) 4 (pos 10) "cap:4" with_hold (draw 9) (pos 3) "again" refl

capture-charges_example :
    let s = (capture (draw 8) 4 (pos 6) "cap:4" with_hold).1 in
    (balance 2 s ≡ balance 2 with_hold -ℤ pos 6)
    × (available_locked 2 s ≡ available_locked 2 with_hold +ℤ (pos 10 -ℤ pos 6))
unfolding runs
capture-charges_example =
    capture-charges (draw 8) 4 (pos 6) "cap:4" with_hold (placed (draw 4) hold with_account) refl
      (λ res found. ground arith) (History-IsSolvent id_text 2 history) refl
