-- ===== src/Base/Action.antt =====
-- A method of a Go type: it reads and writes the state of its receiver, and returns a value or an
-- error. What was written before an error stays written, since an error return undoes nothing.
use mathlib.Core.Bool.{Bool, true, false}
use mathlib.Core.Option.{Option, none, some}
use mathlib.Core.Path.{◌≡◌, refl, ap, ◌∙◌}
use mathlib.Core.Logic.{◌⊎◌, inl, inr}
use native.Mathlib.Omega.{arith}
-- The sentinel that `errors.Is` finds in a returned error, or the text of any other error.
use Prim.Native.String.{String}

pub data Error : Type 0 where
  -- domain/repositories.go
  not_found conflict insufficient_credits cost_cap_exceeded capacity_degraded : Error
  active_job_limit_exceeded : Error
  -- service/billingservice
  unknown_operation invalid_amount : Error
  -- service/joborchestrator
  backend_price_required invalid_input_artifact : Error
  -- service/pricingcatalog
  invalid_product_key invalid_floor invalid_multiplier invalid_cap invalid_snapshot : Error
  price_not_found duplicate_price credit_calculation invalid_product_price : Error
  invalid_runtime_price : Error
  -- service/paymentservice
  invalid_input forbidden receipt_contact_required : Error
  webhook_invalid webhook_unverified webhook_mismatch webhook_unsupported : Error
  refund_not_allowed refund_credits_spent refund_mismatch : Error
  other : String → Error

pub data Result {ℓ} (A : Type ℓ) : Type ℓ where
  ok : A → Result A
  err : Error → Result A

abbrev pub Action : Type 0 → Type 0 → Type 0
Action S A = S → Result A × S

module _ {S : Type 0} where
  abbrev pub pure : {A : Type 0} → A → Action S A
  pure a s = (ok a, s)

  abbrev pub raise : {A : Type 0} → Error → Action S A
  raise e s = (err e, s)

  -- `if err := ...; err != nil { return err }` on a value that needs no state.
  abbrev pub or_raise : {A : Type 0} → Option A → Error → Action S A
  or_raise none e = raise e
  or_raise (some a) e = pure a

  abbrev pub of_result : {A : Type 0} → Result A → Action S A
  of_result r s = (r, s)

  abbrev pub gets : {A : Type 0} → (S → A) → Action S A
  gets f s = (ok (f s), s)

  abbrev pub modify : (S → S) → Action S (Unit {0})
  modify f s = (ok tt, f s)

  abbrev pub raise_if : Bool → Error → Action S (Unit {0})
  raise_if true e s = (err e, s)
  raise_if false e s = (ok tt, s)

  infixl 5 ◌>>=◌ ◌>>◌
  abbrev pub ◌>>=◌ : {A B : Type 0} → Action S A → (A → Action S B) → Action S B
  ◌>>=◌ m f s = let (r, s') = m s in elim r [ ok a ↦ f a s' | err e ↦ (err e, s') ]

  abbrev pub ◌>>◌ : {A B : Type 0} → Action S A → Action S B → Action S B
  m >> k = m >>= λ _. k

  -- `v, err := m()`, for code that looks at the error itself.
  abbrev pub try : {A : Type 0} → Action S A → Action S (Result A)
  try m s = let (r, s') = m s in (ok r, s')

-- `errors.Is`
abbrev pub is_not_found : Error → Bool
is_not_found not_found = true
is_not_found _ = false

abbrev pub is_conflict : Error → Bool
is_conflict conflict = true
is_conflict _ = false

abbrev pub is_insufficient_credits : Error → Bool
is_insufficient_credits insufficient_credits = true
is_insufficient_credits _ = false

abbrev pub is_ok {ℓ} : {A : Type ℓ} → Result A → Bool
is_ok (ok a) = true
is_ok (err e) = false

pub Result-cases {ℓ} :
    {A : Type ℓ} (r : Result A) → ((a : A) × (r ≡ ok a)) ⊎ ((e : Error) × (r ≡ err e))
Result-cases (ok a) = inl (a, refl)
Result-cases (err e) = inr (e, refl)

abbrev pub after : {S A B : Type 0} → Result A × S → (A → Action S B) → Result B × S
after t k = elim t.0 [ ok a ↦ k a t.1 | err e ↦ (err e, t.1) ]

after_ok :
    {S A B : Type 0} (t : Result A × S) (k : A → Action S B) (b : B)
    → (after t k).0 ≡ ok b
    → (a : A) × (t.0 ≡ ok a) × (after t k ≡ k a t.1)
after_ok (ok a, s) k b e = (a, refl, refl)
after_ok (err x, s) k b e = absurd (ground arith)

-- A chain that answers `ok` answered so at its first link, and went on from there.
pub chain_ok :
    {S A B : Type 0} (m : Action S A) (k : A → Action S B) (s : S) (b : B)
    → ((m >>= k) s).0 ≡ ok b
    → (a : A) × ((m s).0 ≡ ok a) × ((m >>= k) s ≡ k a (m s).1)
chain_ok m k s b e = after_ok (m s) k b e

-- What an action leaves as it was, whatever it answers.
abbrev pub Keeps : {S A X : Type 0} → (S → X) → Action S A → Type 0
Keeps {S} f m = (s : S) → f (m s).1 ≡ f s

after-Keeps :
    {S A B X : Type 0} (f : S → X) (t : Result A × S) (k : A → Action S B)
    → ((a : A) → Keeps f (k a))
    → f (after t k).1 ≡ f t.1
after-Keeps f (ok a, s) k keeps = keeps a s
after-Keeps f (err x, s) k keeps = refl

pub chain-Keeps :
    {S A B X : Type 0} (f : S → X) (m : Action S A) (k : A → Action S B)
    → Keeps f m
    → ((a : A) → Keeps f (k a))
    → Keeps f (m >>= k)
chain-Keeps f m k first rest s = after-Keeps f (m s) k rest ∙ first s

pub ok_injective : {A : Type 0} {a b : A} → ok a ≡ ok b → a ≡ b
ok_injective {a = a} e = ap (λ r. elim r [ ok x ↦ x | err _ ↦ a ]) e

-- A chain of which the rest changes nothing leaves what its first link leaves.
pub chain-state :
    {S A B : Type 0} (m : Action S A) (k : A → Action S B) (s : S)
    → ((a : A) → Keeps (λ t. t) (k a))
    → ((m >>= k) s).1 ≡ (m s).1
chain-state m k s rest = after-Keeps (λ t. t) (m s) k rest

-- A chain whose first link is known.
pub chain-by :
    {S A B : Type 0} (m : Action S A) (k : A → Action S B) (s : S) {t : S} {a : A}
    → m s ≡ (ok a, t)
    → (m >>= k) s ≡ k a t
chain-by m k s h = ap (λ x. after x k) h

pub chain-err :
    {S A B : Type 0} (m : Action S A) (k : A → Action S B) (s : S) {t : S} {e : Error}
    → m s ≡ (err e, t)
    → (m >>= k) s ≡ (err e, t)
chain-err m k s h = ap (λ x. after x k) h

-- What a chain leaves is what its first link leaves, or what the rest leaves after a value of it.
pub chain-cases :
    {S A B : Type 0} (m : Action S A) (k : A → Action S B) (s : S)
    → ((e : Error) × (m s ≡ (err e, (m s).1)) × ((m >>= k) s ≡ (err e, (m s).1)))
      ⊎ ((a : A) × (m s ≡ (ok a, (m s).1)) × ((m >>= k) s ≡ k a (m s).1))
chain-cases m k s = elim (Result-cases (m s).0) [
  | inr (e, h) ↦ inl (e, ap (λ r. (r, (m s).1)) h, ap (λ r. after (r, (m s).1) k) h)
  | inl (a, h) ↦ inr (a, ap (λ r. (r, (m s).1)) h, ap (λ r. after (r, (m s).1) k) h)
]
