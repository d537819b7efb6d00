-- ===== src/Billing/Repo/Holds.antt =====
-- Holds (adapter/storage/memory/billing.go): what is reserved on an account never exceeds its
-- balance.
use vk_agregator.Base.{
  ◌&&◌, ◌≡◌, ap, ◌∙◌, inl, inr, [], ◌∷◌, none, some, Uuid, arith, if◌then◌else◌, Bool-cases,
}
use vk_agregator.Base.Eq.{◌==◌, uuid_key, text_key}
use vk_agregator.Base.Int.{ℤ, pos, pos_part, neg_part, ◌+ℤ◌, ◌-ℤ◌, ◌≤ℤ◌, int_laws}
use vk_agregator.Base.Int64.{wrap64, wrap64--ℤ, ◌-₆₄◌}
use vk_agregator.Base.Dict.{Dict, lookup, insert}
use vk_agregator.Domain.Billing.{CreditReservation, is_reserved}
use vk_agregator.Billing.Repo.{less_held}

-- What a reservation holds on an account.
unfoldable pub held_by : Uuid → CreditReservation → ℤ
held_by account res =
    if res.account_id == account && is_reserved res.status then res.amount else pos 0

-- The sum of an account's active holds, with no bound on its size.
abbrev pub held : Uuid → Dict Uuid CreditReservation → ℤ
held account [] = pos 0
held account ((_, res) ∷ rest) = held_by account res +ℤ held account rest

pub less_held_lem :
    (account : Uuid) (x : ℤ) (m : Dict Uuid CreditReservation)
    → less_held account (wrap64 x) m ≡ wrap64 (x -ℤ held account m)
unfolding ◌-₆₄◌ held_by
less_held_lem account x [] = ap wrap64 (omega int_laws)
less_held_lem account x ((k, res) ∷ rest) =
    elim (Bool-cases (res.account_id == account && is_reserved res.status)) [
      | inl on ↦
          rw on (
            rw wrap64--ℤ
              (less_held_lem account (x -ℤ res.amount) rest ∙ ap wrap64 (omega int_laws)))
      | inr off ↦ rw off (less_held_lem account x rest ∙ ap wrap64 (omega int_laws))
    ]

abbrev pub HoldsNonneg : Dict Uuid CreditReservation → Type 0
HoldsNonneg [] = Unit {0}
HoldsNonneg ((_, res) ∷ rest) = (pos 0 ≤ℤ res.amount) × HoldsNonneg rest

pub held_nonneg :
    (account : Uuid) (m : Dict Uuid CreditReservation) → HoldsNonneg m → pos 0 ≤ℤ held account m
unfolding held_by
held_nonneg account [] h = omega arith
held_nonneg account ((k, res) ∷ rest) h = grind (int_laws, held_nonneg account rest h.1)

held_by_nonneg :
    (account : Uuid) (res : CreditReservation) → pos 0 ≤ℤ res.amount → pos 0 ≤ℤ held_by account res
unfolding held_by
held_by_nonneg account res h = ground arith

pub insert-HoldsNonneg :
    (id : Uuid) (res : CreditReservation) (m : Dict Uuid CreditReservation)
    → HoldsNonneg m
    → pos 0 ≤ℤ res.amount
    → HoldsNonneg (insert id res m)
insert-HoldsNonneg id res [] h p = (p, tt)
insert-HoldsNonneg id res (x ∷ m) h p = ground (arith, insert-HoldsNonneg id res m h.1 p)

pub held-insert :
    (account id : Uuid) (res old : CreditReservation) (m : Dict Uuid CreditReservation)
    → lookup id m ≡ some old
    → held account (insert id res m) +ℤ held_by account old ≡ held account m +ℤ held_by account res
held-insert account id res old [] e = cc
held-insert account id res old (x ∷ m) e = elim (Bool-cases (x.0 == id)) [
  | inl hit ↦ let same : x.1 ≡ old = ground arith in rw (hit, same) (omega int_laws)
  | inr miss ↦ rw miss (
      omega (
        int_laws,
        ap pos_part (held-insert account id res old m (ground arith)),
        ap neg_part (held-insert account id res old m (ground arith)),
      ))
]

pub held-insert_new :
    (account id : Uuid) (res : CreditReservation) (m : Dict Uuid CreditReservation)
    → lookup id m ≡ none
    → held account (insert id res m) ≡ held account m +ℤ held_by account res
held-insert_new account id res [] e = omega int_laws
held-insert_new account id res (x ∷ m) e = elim (Bool-cases (x.0 == id)) [
  | inl hit ↦ ground arith
  | inr miss ↦ rw miss (rw (held-insert_new account id res m (ground arith)) (omega int_laws))
]

pub lookup-nonneg :
    (id : Uuid) (res : CreditReservation) (m : Dict Uuid CreditReservation)
    → HoldsNonneg m
    → lookup id m ≡ some res
    → pos 0 ≤ℤ res.amount
lookup-nonneg id res [] h e = cc
lookup-nonneg id res (x ∷ m) h e = ground (arith, lookup-nonneg id res m h.1)

-- One hold is at most all holds.
pub held_by-le-held :
    (account id : Uuid) (res : CreditReservation) (m : Dict Uuid CreditReservation)
    → HoldsNonneg m
    → lookup id m ≡ some res
    → held_by account res ≤ℤ held account m
held_by-le-held account id res [] h e = cc
held_by-le-held account id res (x ∷ m) h e = elim (Bool-cases (x.0 == id)) [
  | inl hit ↦
      let same : x.1 ≡ res = ground arith in rw same (omega (int_laws, held_nonneg account m h.1))
  | inr miss ↦ omega (
    int_laws,
    held_by_nonneg account x.1 h.0,
    held_by-le-held account id res m h.1 (ground arith),
  )
]
