-- ===== src/Billing/Repo/Effects.antt =====
-- What a successful call does (adapter/storage/memory/billing.go), and that it happens once.
use vk_agregator.Base.{String, false, ◌≡◌, refl, ap, sym, ◌∙◌, inl, inr, none, some, Uuid, arith}
use vk_agregator.Base.Eq.{uuid_key, text_key}
use vk_agregator.Base.Int.{ℤ, pos, ◌+ℤ◌, ◌-ℤ◌, ◌≤ℤ◌, int_laws, parts_of}
use vk_agregator.Base.Int64.{neg64}
use vk_agregator.Base.Dict.{lookup, lookup_or, lookup-insert}
use vk_agregator.Base.Action.{ok, err, conflict}
use vk_agregator.Domain.Billing.{CreditReservation, ReservationStatus, LedgerEntry, LedgerEntryType}
use vk_agregator.Billing.{Draw, or_uuid}
use vk_agregator.Billing.Repo.{
  BillingRepo, balance, available_locked, append_locked, settle_entry, hold_entry, placed, reserve,
  capture, release,
}
use vk_agregator.Billing.Repo.Holds.{held, held_by, held-insert_new}
use vk_agregator.Billing.Repo.Solvent.{
  IsSolvent, available_exact, append_locked-reservations, reserve-IsSolvent, hold-balance,
  held_state,
}
use vk_agregator.Billing.Repo.Settle.{
  IsWithinHold, capture_cases, given_up, given_up-held, settle-balance, capture-IsSolvent,
}

reserve_ok :
    (d : Draw) (res : CreditReservation) (r : BillingRepo) {x : CreditReservation}
    → (reserve d res r).0 ≡ ok x
    → (reserve d res r).1
      ≡ (append_locked d (hold_entry (placed d res r)) (held_state res.account_id d res r)).1
unfolding reserve
reserve_ok d res r e = ground arith

-- A reservation that is granted lowers what is available on its account by its amount and leaves
-- the balance as it was. The account is solvent, the amount is zero or more, and the reservation is
-- new and asks for the status `reserved`.
pub reserve-available :
    (d : Draw) (res : CreditReservation) (r : BillingRepo) {x : CreditReservation}
    → IsSolvent res.account_id r
    → pos 0 ≤ℤ res.amount
    → res.status ≡ ReservationStatus.reserved
    → lookup (or_uuid res.id d.id) r.reservations ≡ none
    → (reserve d res r).0 ≡ ok x
    → (available_locked res.account_id (reserve d res r).1
        ≡ available_locked res.account_id r -ℤ res.amount)
      × (balance res.account_id (reserve d res r).1 ≡ balance res.account_id r)
unfolding placed held_by
reserve-available d res r s p status fresh e = (
  rw
      (
        available_exact _ _ (reserve-IsSolvent res.account_id d res r p fresh s),
        available_exact _ r s,
        same,
        more,
      )
      (omega int_laws),
  same,
)
  where
    same : balance res.account_id (reserve d res r).1 ≡ balance res.account_id r
    same = rw (reserve_ok d res r e) (
        hold-balance res.account_id d (placed d res r) (held_state res.account_id d res r)
          s.in_range)

    more :
        held res.account_id (reserve d res r).1.reservations
        ≡ held res.account_id r.reservations +ℤ res.amount
    more = rw (reserve_ok d res r e) (
        rw append_locked-reservations (
          held-insert_new res.account_id (or_uuid res.id d.id) (placed d res r) r.reservations fresh
          ∙ ground arith))

module _ (d : Draw) (id : Uuid) (amount : ℤ) (key : String) (r : BillingRepo) where
  -- A capture that goes through found an active hold, and gave it up.
  capture_ok :
      (capture d id amount key r).0 ≡ ok tt
      → (res : CreditReservation) × (lookup id r.reservations ≡ some res)
        × (res.status ≡ ReservationStatus.reserved)
        × (capture d id amount key r
            ≡ append_locked d
                (settle_entry res LedgerEntryType.capture (neg64 amount) key "credit capture")
                (given_up d id res ReservationStatus.captured r))
  capture_ok e = elim (capture_cases d id r amount key) [
    | inl (x, failed) ↦ absurd (cc (ap (λ p. p.0) failed))
    | inr done ↦ done
  ]

  -- The state that a settled hold is in after an append.
  settled_lookup :
      (res : CreditReservation) (status : ReservationStatus) (e : LedgerEntry)
      → lookup id (append_locked d e (given_up d id res status r)).1.reservations
        ≡ some (record res { status = status; updated_at = d.now })
  settled_lookup res status e = rw append_locked-reservations (
      ground (
        arith,
        lookup-insert id id (record res { status = status; updated_at = d.now }) r.reservations,
      ))

  -- A hold is settled once: after a capture that went through, a capture or release of the same
  -- reservation that directly follows it answers a conflict and changes nothing.
  pub capture-once :
      (d' : Draw) (amount' : ℤ) (key' : String)
      → (capture d id amount key r).0 ≡ ok tt
      → let s = (capture d id amount key r).1 in
        (capture d' id amount' key' s ≡ (err conflict, s))
        × (release d' id key' s ≡ (err conflict, s))
  capture-once d' amount' key' e =
      let (res, found, active, done) = capture_ok e in
      let gone =
        ap (λ p. lookup id p.1.reservations) done
        ∙ settled_lookup res ReservationStatus.captured
            (settle_entry res LedgerEntryType.capture (neg64 amount) key "credit capture") in
      (unfold capture in rw (gone, capture), unfold release in rw (gone, release))

  append_ok-unused :
      (e : LedgerEntry) (s : BillingRepo)
      → (append_locked d e s).0 ≡ ok tt
      → lookup_or false e.idempotency_key s.ledger_keys ≡ false
  unfolding append_locked
  append_ok-unused e s h = ground arith

  -- A capture that goes through takes its amount off the balance of the hold's account, and makes
  -- the rest of the hold available again. The account is solvent, and the amount is from zero to
  -- what the reservation holds.
  pub capture-charges :
      (res : CreditReservation)
      → lookup id r.reservations ≡ some res
      → IsWithinHold id r amount
      → IsSolvent res.account_id r
      → (capture d id amount key r).0 ≡ ok tt
      → let s = (capture d id amount key r).1 in
        (balance res.account_id s ≡ balance res.account_id r -ℤ amount)
        × (available_locked res.account_id s
            ≡ available_locked res.account_id r +ℤ (res.amount -ℤ amount))
  unfolding held_by
  capture-charges res found within v e =
      let (res', found', active', done) = capture_ok e in
      let same : res' ≡ res = ground arith in
      let active : res.status ≡ ReservationStatus.reserved = rw (← same) active' in
      let post = given_up d id res ReservationStatus.captured r in
      let entry = settle_entry res LedgerEntryType.capture (neg64 amount) key "credit capture" in
      let done' : capture d id amount key r ≡ append_locked d entry post = rw (← same) done in
      let unused = append_ok-unused entry post (ap (λ p. p.0) (sym done') ∙ e) in
      let paid : balance res.account_id (capture d id amount key r).1
          ≡ balance res.account_id r -ℤ amount =
        ap (λ p. balance res.account_id p.1) done'
        ∙ settle-balance res.account_id d id res r v found active LedgerEntryType.capture amount key
            "credit capture" ReservationStatus.captured (within res found).0 (within res found).1
        ∙ rw unused (ground arith) in
      let holds : held res.account_id (capture d id amount key r).1.reservations +ℤ res.amount
          ≡ held res.account_id r.reservations =
        rw done' (
          rw append_locked-reservations (
            ap (λ x. held res.account_id post.reservations +ℤ x) (ground arith)
            ∙ given_up-held res.account_id d id res r v found active ReservationStatus.captured
                refl)) in
      (
        paid,
        rw
            (
              available_exact _ _ (capture-IsSolvent res.account_id d id r amount key within v),
              available_exact _ r v,
              paid,
            )
            (omega (int_laws, parts_of holds)),
      )
