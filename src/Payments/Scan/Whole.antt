-- ===== src/Payments/Scan/Whole.antt =====
-- The walk over pages (service/paymentservice/webhook_processor.go) ends, and sees what a walk over
-- the whole list would see.
use vk_agregator.Base.{
  ℕ, zero, suc, ◌+◌, ◌*◌, ◌≤◌, ◌<◌, ◌≡◌, refl, sym, ap, ◌∙◌, inl, inr, String, Bool, true, false,
  if◌then◌else◌, Option, none, some, List, [], ◌∷◌, ◌++◌, Uuid, arith, ltb, nat_beq, Bool-cases,
  Option-cases,
}
use mathlib.Core.List.{reverse}
use vk_agregator.Base.Lists.{length, take, drop, retain}
use vk_agregator.Base.Eq.{◌==◌, uuid_key, text_key}
use vk_agregator.Base.Int.{ℤ, pos, leb_ℤ, ◌≤ℤ◌}
use vk_agregator.Base.Text.{trim_space}
use vk_agregator.Domain.Payment.{PaymentIntent}
use vk_agregator.Payments.Books.{top_up_ledger_key}
use vk_agregator.Base.Action.{
  Action, Result, ok, err, raise, of_result, refund_not_allowed, refund_credits_spent,
}
use vk_agregator.Domain.Billing.{LedgerEntry}
use vk_agregator.Billing.Repo.{BillingRepo, list_entries}
use vk_agregator.Payments.Scan.{
  is_top_up_of, is_spending, refund_ledger_scan_page_size, scan_page, scan_pages, scan_fuel,
  page_limit, ensure_topup_credits_refundable,
}

module _ {A : Type 0} where
  take-nil : (n : ℕ) → take {A = A} n [] ≡ []
  take-nil zero = refl
  take-nil (suc n) = refl

  drop-nil : (n : ℕ) → drop {A = A} n [] ≡ []
  drop-nil zero = refl
  drop-nil (suc n) = refl

  take-split : (m n : ℕ) (xs : List A) → take (m + n) xs ≡ take m xs ++ take n (drop m xs)
  take-split zero n xs = ap (λ k. take k xs) (omega arith)
  take-split (suc m) n [] = take-nil (suc m + n) ∙ sym (take-nil n)
  take-split (suc m) n (x ∷ xs) =
      ap (λ k. take k (x ∷ xs)) shift ∙ ap (λ ys. x ∷ ys) (take-split m n xs)
    where
      shift : suc m + n ≡ suc (m + n)
      shift = omega arith

  drop-drop : (m n : ℕ) (xs : List A) → drop n (drop m xs) ≡ drop (m + n) xs
  drop-drop zero n xs = ap (λ k. drop k xs) (omega arith)
  drop-drop (suc m) n [] = drop-nil n ∙ sym (drop-nil (suc m + n))
  drop-drop (suc m) n (x ∷ xs) = drop-drop m n xs ∙ ap (λ k. drop k (x ∷ xs)) shift
    where
      shift : suc (m + n) ≡ suc m + n
      shift = omega arith

  length-take : (m : ℕ) (xs : List A) → length (take m xs) ≤ m
  length-take zero xs = omega arith
  length-take (suc m) [] = omega arith
  length-take (suc m) (x ∷ xs) = omega (arith, length-take m xs)

  -- A page that is not full is the last.
  short_page : (m : ℕ) (xs : List A) → length (take m xs) < m → drop m xs ≡ []
  short_page zero xs h = absurd (omega arith)
  short_page (suc m) [] h = refl
  short_page (suc m) (x ∷ xs) h = short_page m xs (omega arith)

pub scan_page-nil : (key : String) (credits : ℤ) → scan_page key credits [] ≡ none
unfolding scan_page
scan_page-nil key credits = refl

short_rows : (es : List LedgerEntry) → ltb (length es) 200 ≡ true → length es < 200
short_rows es h = ground arith

full_page :
    (es : List LedgerEntry) → length es ≤ 200 → ltb (length es) 200 ≡ false → length es ≡ 200
full_page es most h = ground arith

-- What one answer is worth before another.
abbrev pub or_next :
    Option (Result (Unit {0})) → Option (Result (Unit {0})) → Option (Result (Unit {0}))
or_next none b = b
or_next (some a) b = some a

-- What one entry decides.
abbrev pub decided : String → ℤ → LedgerEntry → Option (Result (Unit {0}))
decided key credits e =
    if e.idempotency_key == key
    then (if is_top_up_of credits e then some (ok tt) else some (err refund_not_allowed))
    else if is_spending e
    then some (err refund_credits_spent)
    else none

choose :
    (same top spent : Bool) (rest : Option (Result (Unit {0})))
    → (if same
        then (if top then some (ok tt) else some (err refund_not_allowed))
        else if spent
        then some (err refund_credits_spent)
        else rest)
      ≡ or_next
          (if same
            then (if top then some (ok tt) else some (err refund_not_allowed))
            else if spent
            then some (err refund_credits_spent)
            else none)
          rest
choose same top spent rest = ground arith

pub scan_page_cons :
    (key : String) (credits : ℤ) (e : LedgerEntry) (es : List LedgerEntry)
    → scan_page key credits (e ∷ es) ≡ or_next (decided key credits e) (scan_page key credits es)
unfolding scan_page
scan_page_cons key credits e es =
    choose (e.idempotency_key == key) (is_top_up_of credits e) (is_spending e)
      (scan_page key credits es)

or_next_assoc :
    (a b c : Option (Result (Unit {0}))) → or_next (or_next a b) c ≡ or_next a (or_next b c)
or_next_assoc none b c = refl
or_next_assoc (some a) b c = refl

scan_page-append :
    (key : String) (credits : ℤ) (xs ys : List LedgerEntry)
    → scan_page key credits (xs ++ ys)
      ≡ or_next (scan_page key credits xs) (scan_page key credits ys)
scan_page-append key credits [] ys = unfold scan_page in refl
scan_page-append key credits (x ∷ xs) ys =
    scan_page_cons key credits x (xs ++ ys)
    ∙ ap (or_next (decided key credits x)) (scan_page-append key credits xs ys)
    ∙ sym (
        or_next_assoc (decided key credits x) (scan_page key credits xs) (scan_page key credits ys))
    ∙ ap (λ a. or_next a (scan_page key credits ys)) (sym (scan_page_cons key credits x xs))

-- What a scan that decided nothing answers.
abbrev pub or_refused : Option (Result (Unit {0})) → Result (Unit {0})
or_refused none = err refund_not_allowed
or_refused (some a) = a

-- The entries of an account, newest first.
abbrev pub newest_entries : Uuid → BillingRepo → List LedgerEntry
newest_entries account r = retain (λ e. e.account_id == account) (reverse r.ledger)

module _ (account : Uuid) (key : String) (credits : ℤ) (r : BillingRepo) where
  abbrev page_at : ℕ → List LedgerEntry
  page_at offset = take 200 (drop offset (newest_entries account r))

  -- What a pass does with the page that it has read.
  abbrev pass : ℕ → ℕ → ℕ → List LedgerEntry → Action BillingRepo (Unit {0})
  pass fuel limit offset entries =
      if nat_beq (length entries) 0
      then raise refund_not_allowed
      else elim (scan_page key credits entries) [
        | some a ↦ of_result a
        | none ↦
            if ltb (length entries) limit
            then raise refund_not_allowed
            else scan_pages fuel account key credits (offset + refund_ledger_scan_page_size)
                (offset + length entries)
      ]

  scan_pages-pass :
      (fuel offset : ℕ)
      → offset + 200 ≤ 5000
      → scan_pages (suc fuel) account key credits offset offset r
        ≡ pass fuel 200 offset (page_at offset) r
  unfolding list_entries
  scan_pages-pass fuel offset h =
      rw room refl
      ∙ ap (λ k. pass fuel k offset (take k (drop offset (newest_entries account r))) r) whole
    where
      room : ltb offset 5000 ≡ true
      room = ground arith

      whole : page_limit offset ≡ 200
      whole = ground arith

  scan_pages_full :
      (fuel offset : ℕ)
      → ltb offset 5000 ≡ false
      → scan_pages (suc fuel) account key credits offset offset r ≡ (err refund_not_allowed, r)
  scan_pages_full fuel offset h = rw h refl

  pass_empty :
      (fuel offset : ℕ) (entries : List LedgerEntry)
      → entries ≡ []
      → pass fuel 200 offset entries r ≡ (err refund_not_allowed, r)
  pass_empty fuel offset entries h = rw h refl

  some_rows : (e : LedgerEntry) (es : List LedgerEntry) → nat_beq (length (e ∷ es)) 0 ≡ false
  some_rows e es = ground arith

  pass_decided :
      (fuel offset : ℕ) (entries : List LedgerEntry) (a : Result (Unit {0}))
      → scan_page key credits entries ≡ some a
      → pass fuel 200 offset entries r ≡ (a, r)
  pass_decided fuel offset [] a h = absurd (unfold scan_page in cc)
  pass_decided fuel offset (e ∷ es) a h = rw (some_rows e es) (rw h refl)

  pass_last :
      (fuel offset : ℕ) (entries : List LedgerEntry)
      → scan_page key credits entries ≡ none
      → length entries < 200
      → pass fuel 200 offset entries r ≡ (err refund_not_allowed, r)
  pass_last fuel offset [] h low = refl
  pass_last fuel offset (e ∷ es) h low = rw (some_rows e es) (rw h (rw short refl))
    where
      short : ltb (length (e ∷ es)) 200 ≡ true
      short = ground arith

  pass_on :
      (fuel offset : ℕ) (entries : List LedgerEntry)
      → scan_page key credits entries ≡ none
      → length entries ≡ 200
      → pass fuel 200 offset entries r
        ≡ scan_pages fuel account key credits (offset + 200) (offset + 200) r
  pass_on fuel offset [] h full = absurd (omega (arith, full))
  pass_on fuel offset (e ∷ es) h full = rw (some_rows e es) (
      rw h (
        rw long (ap (λ n. scan_pages fuel account key credits (offset + 200) (offset + n) r) full)))
    where
      long : ltb (length (e ∷ es)) 200 ≡ false
      long = ground arith

  -- What the rest of the list decides, from an offset on, within `n` entries.
  abbrev within : ℕ → ℕ → Option (Result (Unit {0}))
  within n offset = scan_page key credits (take n (drop offset (newest_entries account r)))

  within-split :
      (n offset : ℕ)
      → within (200 + n) offset
        ≡ or_next (scan_page key credits (page_at offset)) (within n (offset + 200))
  within-split n offset =
      ap (scan_page key credits) (take-split 200 n rest)
      ∙ scan_page-append key credits (page_at offset) (take n (drop 200 rest))
      ∙ ap
          (λ xs.
            or_next (scan_page key credits (page_at offset)) (scan_page key credits (take n xs)))
          (drop-drop offset 200 (newest_entries account r))
    where
      rest : List LedgerEntry
      rest = drop offset (newest_entries account r)

  -- After a page that is not full nothing is left.
  within-last : (n offset : ℕ) → length (page_at offset) < 200 → within n (offset + 200) ≡ none
  within-last n offset low =
      ap (λ xs. scan_page key credits (take n xs))
        (sym (drop-drop offset 200 (newest_entries account r))
          ∙ short_page 200 (drop offset (newest_entries account r)) low)
      ∙ ap (scan_page key credits) (take-nil n)
      ∙ scan_page-nil key credits

  -- With a pass of fuel for each of the `k` pages that are left and one more, the walk answers what
  -- one scan of those pages answers.
  scan_pages-agrees :
      (k fuel offset : ℕ)
      → offset + 200 * k ≡ 5000
      → k < fuel
      → scan_pages fuel account key credits offset offset r
        ≡ (or_refused (within (200 * k) offset), r)
  scan_pages-agrees k zero offset h low = absurd (omega arith)
  scan_pages-agrees zero (suc fuel) offset h low =
      scan_pages_full fuel offset (ground arith)
      ∙ sym (ap (λ b. (or_refused b, r)) (scan_page-nil key credits))
  scan_pages-agrees (suc k) (suc fuel) offset h low =
      scan_pages-pass fuel offset (omega arith)
      ∙ elim (Option-cases (scan_page key credits (page_at offset))) [
        | inr (a, found) ↦
            pass_decided fuel offset (page_at offset) a found
            ∙ ap (λ b. (or_refused b, r))
                (sym (split ∙ ap (λ b. or_next b (within (200 * k) (offset + 200))) found))
        | inl undecided ↦
            let onward = split ∙ ap (λ b. or_next b (within (200 * k) (offset + 200))) undecided in
            elim (Bool-cases (ltb (length (page_at offset)) 200)) [
              | inl short ↦
                  pass_last fuel offset (page_at offset) undecided
                    (short_rows (page_at offset) short)
                  ∙ ap (λ b. (or_refused b, r))
                      (sym
                        (onward ∙ within-last (200 * k) offset (short_rows (page_at offset) short)))
              | inr long ↦
                  pass_on fuel offset (page_at offset) undecided (
                    full_page (page_at offset)
                      (length-take 200 (drop offset (newest_entries account r))) long)
                  ∙ scan_pages-agrees k fuel (offset + 200) (omega arith) (omega arith)
                  ∙ ap (λ b. (or_refused b, r)) (sym onward)
            ]
      ]
    where
      split :
          within (200 * suc k) offset
          ≡ or_next (scan_page key credits (page_at offset)) (within (200 * k) (offset + 200))
      split =
          ap (λ n. within n offset) {y = 200 + 200 * k} (omega arith)
          ∙ within-split (200 * k) offset

-- The check before a refund ends, on every ledger: it answers what one scan of the account's newest
-- 5,000 entries answers, whatever the pages that it reads, and it changes nothing. The payment
-- names a provider payment, and has credits to give back.
pub ensure_refundable-agrees :
    (account : Uuid) (intent : PaymentIntent) (r : BillingRepo)
    → trim_space intent.provider_payment_id == "" ≡ false
    → pos 1 ≤ℤ intent.credits
    → ensure_topup_credits_refundable account intent r ≡ (
      or_refused (
          scan_page
            (top_up_ledger_key intent.provider intent.provider_payment_id)
            intent.credits
            (take 5000 (newest_entries account r))),
      r,
    )
unfolding ensure_topup_credits_refundable
ensure_refundable-agrees account intent r named paid = rw named (
    rw some_credits (
      scan_pages-agrees account (top_up_ledger_key intent.provider intent.provider_payment_id)
        intent.credits r 25 scan_fuel 0 (omega arith) (omega arith)))
  where
    some_credits : leb_ℤ intent.credits (pos 0) ≡ false
    some_credits = ground arith
