-- ===== src/Tx.antt =====
-- platform/uow and adapter/storage: a callback over the repositories of one transaction, and what
-- becomes of what it writes.
use mathlib.Core.Path.{subst}
use vk_agregator.Base.{◌≡◌, ◌⊎◌, inl, inr, ap, sym, refl, Option, none, some, arith}
use vk_agregator.Base.Action.{Action, Result, ok, err, Error, Result-cases}
use vk_agregator.Base.Preserves.{Preserves}

module _ {S A : Type 0} where
  -- adapter/storage/memory: `UnitOfWork.Within` runs the callback.
  unfoldable pub within_memory : Action S A → Action S A
  within_memory body = body

  abbrev commit_or_roll_back : Option Error → S → Result A × S → Result A × S
  commit_or_roll_back none before (ok a, after) = (ok a, after)
  commit_or_roll_back (some e) before (ok a, after) = (err e, before)
  commit_or_roll_back commit before (err e, after) = (err e, before)

  -- adapter/storage/postgres: `RunInTx`. The errors that `Begin` and `Commit` answer with are the
  -- server's, and parameters; nothing of a transaction that is not committed stays.
  unfoldable pub run_in_tx : Option Error → Option Error → Action S A → Action S A
  run_in_tx (some e) commit body r = (err e, r)
  run_in_tx none commit body r = commit_or_roll_back commit r (body r)

  pub run_in_tx_ok :
      (begin commit : Option Error) (body : Action S A) (r : S) (a : A)
      → (run_in_tx begin commit body r).0 ≡ ok a
      → run_in_tx begin commit body r ≡ body r
  unfolding run_in_tx
  run_in_tx_ok (some x) commit body r a went = absurd (cc)
  run_in_tx_ok none (some x) body r a went = ground arith
  run_in_tx_ok none none body r a went = ground arith

  pub run_in_tx_failed :
      (begin commit : Option Error) (body : Action S A) (r : S) (e : Error)
      → (run_in_tx begin commit body r).0 ≡ err e
      → (run_in_tx begin commit body r).1 ≡ r
  unfolding run_in_tx
  run_in_tx_failed (some x) commit body r e failed = refl
  run_in_tx_failed none (some x) body r e failed = ground arith
  run_in_tx_failed none none body r e failed = ground arith

  pub run_in_tx-cases :
      (begin commit : Option Error) (body : Action S A) (r : S)
      → ((run_in_tx begin commit body r).1 ≡ r) ⊎ ((run_in_tx begin commit body r).1 ≡ (body r).1)
  run_in_tx-cases begin commit body r = elim (Result-cases (run_in_tx begin commit body r).0) [
    | inl (a, went) ↦ inr (ap (λ t. t.1) (run_in_tx_ok begin commit body r a went))
    | inr (e, failed) ↦ inl (run_in_tx_failed begin commit body r e failed)
  ]

  pub run_in_tx-Preserves :
      {P : S → Type 0} (begin commit : Option Error) {body : Action S A}
      → Preserves P body
      → Preserves P (run_in_tx begin commit body)
  run_in_tx-Preserves {P} begin commit {body} first = record {
    kept = λ r p. elim (run_in_tx-cases begin commit body r) [
      | inl same ↦ subst P (sym same) p
      | inr went ↦ subst P (sym went) (first.kept r p)
    ];
  }
