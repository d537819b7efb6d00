-- ===== src/Billing/Repo/ByJob.antt =====
-- Finding a job's reservation (adapter/storage/memory/billing.go), before and after it is settled.
use vk_agregator.Base.{
  ◌≡◌, refl, ap, ◌∙◌, ◌⊎◌, inl, inr, [], ◌∷◌, Option, none, some, Uuid, arith, if◌then◌else◌,
}
use vk_agregator.Base.Eq.{◌==◌, uuid_key}
use vk_agregator.Base.Dict.{Dict, lookup, insert, lookup-insert}
use vk_agregator.Domain.Billing.{CreditReservation, ReservationStatus, Time}
use vk_agregator.Billing.Repo.{newest_of, consider}

-- Each reservation is kept under its own identifier, once.
abbrev pub WellKeyed : Dict Uuid CreditReservation → Type 0
WellKeyed [] = Unit {0}
WellKeyed (entry ∷ m) = (entry.1.id ≡ entry.0) × (lookup entry.0 m ≡ none) × WellKeyed m

pub insert-WellKeyed :
    (res : CreditReservation) (m : Dict Uuid CreditReservation)
    → WellKeyed m
    → WellKeyed (insert res.id res m)
insert-WellKeyed res [] w = (refl, refl, tt)
insert-WellKeyed res (entry ∷ m) w =
    ground (arith, insert-WellKeyed res m w.2, lookup-insert res.id entry.0 res m)

-- The reservation with a status given to it, if it is the one meant.
unfoldable pub settled : Uuid → ReservationStatus → Time → CreditReservation → CreditReservation
settled id status now res =
    if res.id == id then record res { status = status; updated_at = now } else res

abbrev pub map_values :
    (CreditReservation → CreditReservation)
    → Dict Uuid CreditReservation
    → Dict Uuid CreditReservation
map_values f [] = []
map_values f (entry ∷ m) = (entry.0, f entry.1) ∷ map_values f m

abbrev pub map_some :
    (CreditReservation → CreditReservation) → Option CreditReservation → Option CreditReservation
map_some f none = none
map_some f (some a) = some (f a)

module _ (id : Uuid) (status : ReservationStatus) (now : Time) where
  untouched :
      (m : Dict Uuid CreditReservation)
      → WellKeyed m
      → lookup id m ≡ none
      → map_values (settled id status now) m ≡ m
  unfolding settled
  untouched [] w e = refl
  untouched (entry ∷ m) w e = ground (arith, untouched m w.2)

  -- Writing a settled reservation back settles it where it stands.
  insert-settled :
      (res : CreditReservation) (m : Dict Uuid CreditReservation)
      → WellKeyed m
      → lookup id m ≡ some res
      → insert id (record res { status = status; updated_at = now }) m
        ≡ map_values (settled id status now) m
  unfolding settled
  insert-settled res [] w e = cc
  insert-settled res (entry ∷ m) w e = ground (arith, untouched m w.2, insert-settled res m w.2)

  consider-settled :
      (job : Uuid) (best : Option CreditReservation) (res : CreditReservation)
      → consider job (map_some (settled id status now) best) (settled id status now res)
        ≡ map_some (settled id status now) (consider job best res)
  unfolding settled consider
  consider-settled job best res = ground arith

  newest_of-settled :
      (job : Uuid) (best : Option CreditReservation) (m : Dict Uuid CreditReservation)
      → newest_of job (map_some (settled id status now) best) (map_values (settled id status now) m)
        ≡ map_some (settled id status now) (newest_of job best m)
  newest_of-settled job best [] = refl
  newest_of-settled job best (entry ∷ m) =
      ap (λ b. newest_of job b (map_values (settled id status now) m))
        (consider-settled job best entry.1)
      ∙ newest_of-settled job (consider job best entry.1) m

  -- Settling a reservation settles what the job's look-up finds.
  pub newest_of-insert :
      (job : Uuid) (res : CreditReservation) (m : Dict Uuid CreditReservation)
      → WellKeyed m
      → lookup id m ≡ some res
      → newest_of job none (insert id (record res { status = status; updated_at = now }) m)
        ≡ map_some (settled id status now) (newest_of job none m)
  newest_of-insert job res m w e = rw (insert-settled res m w e) (newest_of-settled job none m)

considered :
    (job : Uuid) (best : Option CreditReservation) (new res : CreditReservation)
    → consider job best new ≡ some res
    → (best ≡ some res) ⊎ (new ≡ res)
unfolding consider
considered job best new res e = ground arith

newest_of_cases :
    (job : Uuid) (best : Option CreditReservation) (m : Dict Uuid CreditReservation)
    (res : CreditReservation)
    → WellKeyed m
    → newest_of job best m ≡ some res
    → (best ≡ some res) ⊎ (lookup res.id m ≡ some res)
newest_of_cases job best [] res w e = inl e
newest_of_cases job best (entry ∷ m) res w e =
    elim (newest_of_cases job (consider job best entry.1) m res w.2 e) [
      | inl first ↦ elim (considered job best entry.1 res first) [
        | inl old ↦ inl old
        | inr new ↦ inr (ground arith)
      ]
      | inr later ↦ inr (ground arith)
    ]

-- What a job's look-up finds is kept under its identifier.
pub newest_of-found :
    (job : Uuid) (m : Dict Uuid CreditReservation) (res : CreditReservation)
    → WellKeyed m
    → newest_of job none m ≡ some res
    → lookup res.id m ≡ some res
newest_of-found job m res w e = elim (newest_of_cases job none m res w e) [
  | inl absent ↦ cc
  | inr found ↦ found
]
