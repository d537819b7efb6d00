-- ===== src/Payments/Refunds/Once.antt =====
-- A payment is refunded once (service/paymentservice/webhook_processor.go).
use mathlib.Core.Path.{subst}
use vk_agregator.Base.{
  zero, suc, ◌≡◌, ◌≢◌, refl, sym, ap, ◌∙◌, inl, inr, true, false, not, Option, none, some, List,
  ◌∷◌, Uuid, String, arith, Bool-cases,
}
use vk_agregator.Base.Eq.{◌==◌, text_key, uuid_key}
use vk_agregator.Base.Lists.{take}
use vk_agregator.Base.Int.{ℤ, pos, ltb_ℤ, ◌≤ℤ◌, ◌-ℤ◌}
use vk_agregator.Base.Int64.{InRange, neg64, neg64_exact}
use vk_agregator.Base.Dict.{lookup, lookup_or}
use vk_agregator.Base.Text.{trim_space}
use vk_agregator.Base.Action.{
  Action, Result, ok, err, Error, refund_not_allowed, refund_credits_spent, raise_if, pure,
  chain_ok, chain-by, ◌>>=◌, ◌>>◌,
}
use vk_agregator.Domain.Billing.{LedgerEntry, CreditAccount, currency_credits}
use vk_agregator.Domain.Payment.{IntentStatus, intent_status_beq, PaymentIntent, PaymentRefund}
use vk_agregator.Billing.{Draw}
use vk_agregator.Billing.Repo.{
  BillingRepo, append_entry, append_locked, completed, get_account_by_user,
}
use vk_agregator.Billing.Service.{Service}
use vk_agregator.Billing.Service.Lasting.{IsLasting, grant_with_owner-Preserves}
use vk_agregator.Payments.Links.{reads_topup, reads_account}
use vk_agregator.Payments.Webhooks.Trusted.{get_intent_found}
use vk_agregator.Payments.Stable.{IsStable}
use vk_agregator.Payments.History.{Steps, steps-Preserves}
use vk_agregator.Payments.Repo.{get_intent_by_id}
use vk_agregator.Payments.Repo.Refunds.{create_refund}
use vk_agregator.Payments.Books.{
  Books, Call, on_payments, on_ledger, intent_owner_id, top_up_ledger_key,
}
use vk_agregator.Payments.Scan.{scan_page, ensure_topup_credits_refundable}
use vk_agregator.Payments.Scan.Whole.{
  decided, or_next, scan_page_cons, scan_page-nil, newest_entries, ensure_refundable-agrees,
  or_refused,
}
use vk_agregator.Payments.Refunds.{RefundIntentInput, debit_entry, open_refund, wanted_refund}
use vk_agregator.Payments.Refunds.Spent.{
  IsSpent, IsSpent-IsLasting, Refuses, newest_append, append-used,
}

negative_exact : (z : ℤ) → pos 1 ≤ℤ z → ltb_ℤ (pos 0 -ℤ z) (pos 0) ≡ true
unfolding ◌-ℤ◌
negative_exact z p = ground arith

negative : (z : ℤ) → pos 1 ≤ℤ z → InRange z → ltb_ℤ (neg64 z) (pos 0) ≡ true
negative z p fits =
    ap (λ x. ltb_ℤ x (pos 0)) (neg64_exact z (ground arith) fits) ∙ negative_exact z p

append_went :
    (d : Draw) (e : LedgerEntry) (r : BillingRepo)
    → (append_entry d e r).0 ≡ ok tt
    → lookup_or false e.idempotency_key r.ledger_keys ≡ false
unfolding append_entry append_locked
append_went d e r went = ground (arith, went)

unnamed_refused :
    (account : Uuid) (intent : PaymentIntent) (r : BillingRepo)
    → trim_space intent.provider_payment_id == "" ≡ true
    → (ensure_topup_credits_refundable account intent r).0 ≢ ok tt
unfolding ensure_topup_credits_refundable
unnamed_refused account intent r unnamed passed = ground (arith, rw unnamed at passed)

or_refused_ok : (a : Option (Result (Unit {0}))) → or_refused a ≡ ok tt → a ≡ some (ok tt)
or_refused_ok none h = absurd (ground (arith, h))
or_refused_ok (some x) h = ap some h

module _ (uuid_string : Uuid → String) where
  abbrev pub top_up_key : PaymentIntent → String
  top_up_key intent = top_up_ledger_key intent.provider intent.provider_payment_id

  own :
      (a : CreditAccount) (intent : PaymentIntent) (refund : PaymentRefund) (d : Draw)
      (r : BillingRepo)
      → (completed d (debit_entry uuid_string a intent refund) r).account_id == a.id ≡ true
  unfolding completed
  own a intent refund d r = (uuid_key.same_iff a.id a.id).1 refl

  refused_head :
      (account : Uuid) (key : String) (credits : ℤ) (e : LedgerEntry) (es : List LedgerEntry)
      (x : Error)
      → decided key credits e ≡ some (err x)
      → Refuses account key credits (e ∷ es)
  refused_head account key credits e es x h zero found =
      absurd (ground (arith, sym (scan_page-nil key credits) ∙ found))
  refused_head account key credits e es x h (suc n) found = absurd (
      ground (
        arith,
        ap (λ a. or_next a (scan_page key credits (take n es))) (sym h)
            ∙ sym (scan_page_cons key credits e (take n es))
            ∙ found,
      ))

  -- The debit of a refund, wherever the scan meets it, is an answer that refuses.
  debit_refuses :
      (d : Draw) (a : CreditAccount) (intent : PaymentIntent) (refund : PaymentRefund)
      (r : BillingRepo)
      → pos 1 ≤ℤ intent.credits
      → InRange intent.credits
      → (e : Error) × (decided
            (top_up_key intent)
            intent.credits
            (completed d (debit_entry uuid_string a intent refund) r)
          ≡ some (err e))
  unfolding completed
  debit_refuses d a intent refund r p fits =
      elim (Bool-cases
        ((debit_entry uuid_string a intent refund).idempotency_key == top_up_key intent)) [
          | inl same ↦ (refund_not_allowed, rw same refl)
          | inr other ↦ (refund_credits_spent, rw other (rw (negative intent.credits p fits) refl))
        ]

  debit-IsSpent :
      (d : Draw) (a : CreditAccount) (intent : PaymentIntent) (refund : PaymentRefund)
      (r : BillingRepo)
      → pos 1 ≤ℤ intent.credits
      → InRange intent.credits
      → lookup_or false (top_up_key intent) r.ledger_keys ≡ true
      → (append_entry d (debit_entry uuid_string a intent refund) r).0 ≡ ok tt
      → IsSpent a.id
          (top_up_key intent)
          intent.credits
          (append_entry d (debit_entry uuid_string a intent refund) r).1
  debit-IsSpent d a intent refund r p fits used went =
      let entry = debit_entry uuid_string a intent refund in
      let (e, refused) = debit_refuses d a intent refund r p fits in
      (
        subst (Refuses a.id (top_up_key intent) intent.credits)
            (sym (
              newest_append a.id (top_up_key intent) intent.credits d entry r
                (append_went d entry r went)
              ∙ rw (own a intent refund d r) refl))
            (refused_head a.id (top_up_key intent) intent.credits (completed d entry r)
              (newest_entries a.id r) e refused),
        append-used a.id (top_up_key intent) intent.credits d entry r used,
      )

  -- `open_refund` from the debit back to the intent.
  abbrev debits : Call → PaymentIntent → CreditAccount → PaymentRefund → Action Books PaymentRefund
  debits c intent a refund =
      on_ledger (append_entry c.entry (debit_entry uuid_string a intent refund)) >> pure refund

  abbrev creates :
      Call → RefundIntentInput → PaymentIntent → CreditAccount → Action Books PaymentRefund
  creates c i intent a =
      on_payments (create_refund c.id c.stored (wanted_refund intent i)) >>= debits c intent a

  abbrev checks :
      Call → RefundIntentInput → PaymentIntent → CreditAccount → Action Books PaymentRefund
  checks c i intent a =
      raise_if (ltb_ℤ a.balance_cached intent.credits) refund_credits_spent
      >> (on_ledger (ensure_topup_credits_refundable a.id intent) >> creates c i intent a)

  abbrev opens : Call → RefundIntentInput → PaymentIntent → Action Books PaymentRefund
  opens c i intent =
      raise_if (not (intent_status_beq intent.status IntentStatus.succeeded)) refund_not_allowed
      >> (raise_if (trim_space intent.provider_payment_id == "") refund_not_allowed
          >> (on_ledger (get_account_by_user uuid_string (intent_owner_id intent) currency_credits)
              >>= checks c i intent))

  open_unfolds :
      (c : Call) (i : RefundIntentInput) (b : Books)
      → open_refund uuid_string c i b ≡ (on_payments (get_intent_by_id i.intent_id) >>= opens c i) b
  unfolding open_refund
  open_unfolds c i b = refl

  debits-IsSpent :
      (c : Call) (intent : PaymentIntent) (a : CreditAccount) (refund x : PaymentRefund) (b : Books)
      → pos 1 ≤ℤ intent.credits
      → InRange intent.credits
      → lookup_or false (top_up_key intent) b.billing.ledger_keys ≡ true
      → (debits c intent a refund b).0 ≡ ok x
      → IsSpent a.id (top_up_key intent) intent.credits (debits c intent a refund b).1.billing
  debits-IsSpent c intent a refund x b p fits used went =
      let append = on_ledger (append_entry c.entry (debit_entry uuid_string a intent refund)) in
      let (_, fine, after) = chain_ok append (λ _. pure refund) b x went in
      subst (IsSpent a.id (top_up_key intent) intent.credits) (ap (λ t. t.1.billing) (sym after))
        (debit-IsSpent c.entry a intent refund b.billing p fits used fine)

  creates-IsSpent :
      (c : Call) (i : RefundIntentInput) (intent : PaymentIntent) (a : CreditAccount)
      (x : PaymentRefund) (b : Books)
      → pos 1 ≤ℤ intent.credits
      → InRange intent.credits
      → lookup_or false (top_up_key intent) b.billing.ledger_keys ≡ true
      → (creates c i intent a b).0 ≡ ok x
      → IsSpent a.id (top_up_key intent) intent.credits (creates c i intent a b).1.billing
  creates-IsSpent c i intent a x b p fits used went =
      let create = on_payments (create_refund c.id c.stored (wanted_refund intent i)) in
      let (refund, _, after) = chain_ok create (debits c intent a) b x went in
      subst (IsSpent a.id (top_up_key intent) intent.credits) (ap (λ t. t.1.billing) (sym after)) (
        debits-IsSpent c intent a refund x (create b).1 p fits used
          (ap (λ t. t.0) (sym after) ∙ went))

  checks-IsSpent :
      (c : Call) (i : RefundIntentInput) (intent : PaymentIntent) (a : CreditAccount)
      (x : PaymentRefund) (b : Books)
      → pos 1 ≤ℤ intent.credits
      → InRange intent.credits
      → lookup_or false (top_up_key intent) b.billing.ledger_keys ≡ true
      → (checks c i intent a b).0 ≡ ok x
      → IsSpent a.id (top_up_key intent) intent.credits (checks c i intent a b).1.billing
  checks-IsSpent c i intent a x b p fits used went =
      elim (Bool-cases (ltb_ℤ a.balance_cached intent.credits)) [
        | inl short ↦ absurd (ground (arith, rw short at went))
        | inr enough ↦
            let check = on_ledger (ensure_topup_credits_refundable a.id intent) in
            let rest : Unit {0} → Action Books PaymentRefund = λ _. creates c i intent a in
            let same : checks c i intent a b ≡ (check >>= rest) b = rw enough refl in
            let (_, _, after) = chain_ok check rest b x (ap (λ t. t.0) (sym same) ∙ went) in
            let still = (reads_topup {P = λ t. t ≡ b} a.id intent).kept b refl in
            let moved = same ∙ after ∙ ap (creates c i intent a) still in
            subst (IsSpent a.id (top_up_key intent) intent.credits)
              (ap (λ t. t.1.billing) (sym moved))
              (creates-IsSpent c i intent a x b p fits used (ap (λ t. t.0) (sym moved) ∙ went))
      ]

  account_found :
      (owner : Uuid) (a : CreditAccount) (b : Books)
      → (get_account_by_user uuid_string owner currency_credits b.billing).0 ≡ ok a
      → on_ledger (get_account_by_user uuid_string owner currency_credits) b ≡ (ok a, b)
  account_found owner a b found =
      let look = on_ledger (get_account_by_user uuid_string owner currency_credits) in
      ap (λ r. (r, (look b).1)) found
      ∙ ap (λ t. (ok a, t))
          ((reads_account {P = λ t. t ≡ b} uuid_string owner currency_credits).kept b refl)

  opens-IsSpent :
      (c : Call) (i : RefundIntentInput) (intent : PaymentIntent) (a : CreditAccount)
      (x : PaymentRefund) (b : Books)
      → pos 1 ≤ℤ intent.credits
      → InRange intent.credits
      → lookup_or false (top_up_key intent) b.billing.ledger_keys ≡ true
      → (get_account_by_user uuid_string (intent_owner_id intent) currency_credits b.billing).0
        ≡ ok a
      → (opens c i intent b).0 ≡ ok x
      → IsSpent a.id (top_up_key intent) intent.credits (opens c i intent b).1.billing
  opens-IsSpent c i intent a x b p fits used found went =
      elim (Bool-cases (intent_status_beq intent.status IntentStatus.succeeded)) [
        | inr unpaid ↦ absurd (ground (arith, rw unpaid at went))
        | inl paid ↦ elim (Bool-cases (trim_space intent.provider_payment_id == "")) [
          | inl unnamed ↦ absurd (ground (arith, rw (paid, unnamed) at went))
          | inr named ↦
              let look =
                on_ledger
                  (get_account_by_user uuid_string (intent_owner_id intent) currency_credits) in
              let same : opens c i intent b ≡ (look >>= checks c i intent) b =
                rw paid (rw named refl) in
              let moved =
                same
                ∙ chain-by look (checks c i intent) b
                    (account_found (intent_owner_id intent) a b found) in
              subst (IsSpent a.id (top_up_key intent) intent.credits)
                (ap (λ t. t.1.billing) (sym moved))
                (checks-IsSpent c i intent a x b p fits used (ap (λ t. t.0) (sym moved) ∙ went))
        ]
      ]

  open_refund-IsSpent :
      (c : Call) (i : RefundIntentInput) (intent : PaymentIntent) (a : CreditAccount)
      (x : PaymentRefund) (b : Books)
      → pos 1 ≤ℤ intent.credits
      → InRange intent.credits
      → lookup_or false (top_up_key intent) b.billing.ledger_keys ≡ true
      → lookup i.intent_id b.payments.intents_by_id ≡ some intent
      → (get_account_by_user uuid_string (intent_owner_id intent) currency_credits b.billing).0
        ≡ ok a
      → (open_refund uuid_string c i b).0 ≡ ok x
      → IsSpent a.id (top_up_key intent) intent.credits (open_refund uuid_string c i b).1.billing
  open_refund-IsSpent c i intent a x b p fits used stored found went =
      let moved =
        open_unfolds c i b
        ∙ chain-by (on_payments (get_intent_by_id i.intent_id)) (opens c i) b
            (get_intent_found i.intent_id intent b stored) in
      subst (IsSpent a.id (top_up_key intent) intent.credits) (ap (λ t. t.1.billing) (sym moved))
        (opens-IsSpent c i intent a x b p fits used found (ap (λ t. t.0) (sym moved) ∙ went))

  spent_refuses :
      (account : Uuid) (intent : PaymentIntent) (r : BillingRepo)
      → pos 1 ≤ℤ intent.credits
      → IsSpent account (top_up_key intent) intent.credits r
      → (ensure_topup_credits_refundable account intent r).0 ≢ ok tt
  spent_refuses account intent r p (refuses, used) passed =
      elim (Bool-cases (trim_space intent.provider_payment_id == "")) [
        | inl unnamed ↦ unnamed_refused account intent r unnamed passed
        | inr named ↦ refuses 5000 (
            or_refused_ok _
              (sym (ap (λ t. t.0) (ensure_refundable-agrees account intent r named p)) ∙ passed))
      ]

  module _ (billing : Service) where
    lasting :
        (account : Uuid) (intent : PaymentIntent)
        → IsLasting uuid_string (IsSpent account (top_up_key intent) intent.credits)
    lasting account intent =
        IsSpent-IsLasting account (top_up_key intent) intent.credits uuid_string

    lasts :
        (account : Uuid) (intent : PaymentIntent)
        → IsStable uuid_string billing
            (λ b. IsSpent account (top_up_key intent) intent.credits b.billing)
    lasts account intent = record {
      moves = λ now id from to h. record { kept = λ b p. p };
      marks = λ now id at. record { kept = λ b p. p };
      receives = λ id now event. record { kept = λ b p. p };
      opens = λ id now refund. record { kept = λ b p. p };
      answers = λ now id name status. record { kept = λ b p. p };
      grants = λ d d' user owner amount key reason. record {
        kept = λ b p.
            (grant_with_owner-Preserves uuid_string (lasting account intent) billing d d' user owner
                amount key reason).kept
              b.billing p;
      };
      appends =
          λ d e. record { kept = λ b p. ((lasting account intent).appends d e).kept b.billing p };
    }

    -- A payment is refunded once. Say that a refund has been opened for a stored intent with credits
    -- to give, which owner has the account `a` and of which the top-up key is used. Then, after any
    -- history of webhooks, syncs, cancellations and refunds, the check before a refund refuses that
    -- payment on that account, whether the provider has paid the money back or not.
    pub open_refund-once :
        (c : Call) (i : RefundIntentInput) (intent : PaymentIntent) (a : CreditAccount)
        (x : PaymentRefund) (b t : Books)
        → pos 1 ≤ℤ intent.credits
        → InRange intent.credits
        → lookup_or false (top_up_key intent) b.billing.ledger_keys ≡ true
        → lookup i.intent_id b.payments.intents_by_id ≡ some intent
        → (get_account_by_user uuid_string (intent_owner_id intent) currency_credits b.billing).0
          ≡ ok a
        → (open_refund uuid_string c i b).0 ≡ ok x
        → Steps uuid_string billing (open_refund uuid_string c i b).1 t
        → (ensure_topup_credits_refundable a.id intent t.billing).0 ≢ ok tt
    open_refund-once c i intent a x b t p fits used stored found went history =
        spent_refuses a.id intent t.billing p (
          steps-Preserves uuid_string billing (lasts a.id intent) history
            (open_refund-IsSpent c i intent a x b p fits used stored found went))
