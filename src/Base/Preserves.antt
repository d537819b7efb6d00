-- ===== src/Base/Preserves.antt =====
-- Properties of the state that an action does not break, link by link.
use mathlib.Core.Bool.{Bool, true, false}
use mathlib.Core.Option.{Option, none, some}
use mathlib.Core.Path.{◌≡◌, refl}
use vk_agregator.Base.Tests.{if◌then◌else◌}
use vk_agregator.Base.Action.{
  Action, Result, ok, err, Error, after, pure, raise, or_raise, of_result, gets, raise_if, try,
  ◌>>=◌, ◌>>◌,
}

-- What an action does not break, whatever it answers.
pub record Preserves {S A : Type 0} (P : S → Type 0) (m : Action S A) : Type 0 where
  pub kept : (s : S) → P s → P (m s).1

after-Preserves :
    {S A B : Type 0} (P : S → Type 0) (t : Result A × S) (k : A → Action S B)
    → ((a : A) → Preserves P (k a))
    → P t.1
    → P (after t k).1
after-Preserves P (ok a, s) k rest p = (rest a).kept s p
after-Preserves P (err x, s) k rest p = p

module _ {S A B : Type 0} {P : S → Type 0} where
  pub chain-Preserves :
      {m : Action S A} {k : A → Action S B}
      → Preserves P m
      → ((a : A) → Preserves P (k a))
      → Preserves P (m >>= k)
  chain-Preserves {m} {k} first rest = record {
    kept = λ s p. after-Preserves P (m s) k rest (first.kept s p);
  }

  pub then-Preserves :
      {m : Action S A} {n : Action S B} → Preserves P m → Preserves P n → Preserves P (m >> n)
  then-Preserves {m} {n} first rest = chain-Preserves {m = m} {k = λ _. n} first (λ _. rest)

module _ {S A : Type 0} {P : S → Type 0} where
  pub if-Preserves :
      {test : Bool} {m n : Action S A}
      → (test ≡ true → Preserves P m)
      → (test ≡ false → Preserves P n)
      → Preserves P (if test then m else n)
  if-Preserves {test = true} then_ else_ = then_ refl
  if-Preserves {test = false} then_ else_ = else_ refl

  pub pure-Preserves : (a : A) → Preserves P (pure a)
  pure-Preserves a = record { kept = λ s p. p }

  pub raise-Preserves : (e : Error) → Preserves P (raise {A = A} e)
  raise-Preserves e = record { kept = λ s p. p }

  pub of_result-Preserves : (r : Result A) → Preserves P (of_result r)
  of_result-Preserves r = record { kept = λ s p. p }

  pub or_raise-Preserves : (found : Option A) (e : Error) → Preserves P (or_raise found e)
  or_raise-Preserves none e = raise-Preserves e
  or_raise-Preserves (some a) e = pure-Preserves a

  pub gets-Preserves : (f : S → A) → Preserves P (gets f)
  gets-Preserves f = record { kept = λ s p. p }

  pub try-Preserves : {m : Action S A} → Preserves P m → Preserves P (try m)
  try-Preserves first = record { kept = λ s p. first.kept s p }

pub raise_if-Preserves :
    {S : Type 0} {P : S → Type 0} (test : Bool) (e : Error) → Preserves P (raise_if test e)
raise_if-Preserves true e = record { kept = λ s p. p }
raise_if-Preserves false e = record { kept = λ s p. p }

module _ {S A B : Type 0} {P : S → Type 0} where
  -- A split on a result, or on what may be missing.
  pub result-Preserves :
      (r : Result A) {f : A → Action S B} {g : Error → Action S B}
      → ((a : A) → Preserves P (f a))
      → ((e : Error) → Preserves P (g e))
      → Preserves P (elim r [ ok a ↦ f a | err e ↦ g e ])
  result-Preserves (ok a) on_ok on_err = on_ok a
  result-Preserves (err e) on_ok on_err = on_err e

  pub option-Preserves :
      (o : Option A) {n : Action S B} {f : A → Action S B}
      → Preserves P n
      → ((a : A) → Preserves P (f a))
      → Preserves P (elim o [ none ↦ n | some a ↦ f a ])
  option-Preserves none on_none on_some = on_none
  option-Preserves (some a) on_none on_some = on_some a

-- Every way in which an action is put together. `search` applies them link by link.
pub ruleset preserving = (
  chain-Preserves, then-Preserves, if-Preserves, pure-Preserves, raise-Preserves,
  of_result-Preserves, or_raise-Preserves, gets-Preserves, try-Preserves, raise_if-Preserves,
)
