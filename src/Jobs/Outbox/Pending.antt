-- ===== src/Jobs/Outbox/Pending.antt =====
-- What marking an event as published does to the events that wait
-- (adapter/storage/memory/memory.go).
use vk_agregator.Base.{
  ◌≡◌, refl, inl, inr, Bool, true, not, ◌&&◌, List, [], ◌∷◌, Uuid, arith, Bool-cases,
}
use vk_agregator.Base.Lists.{any, retain}
use vk_agregator.Base.Eq.{uuid_key}
use vk_agregator.Domain.Billing.{Time}
use vk_agregator.Jobs.Outbox.{
  OutboxRepo, OutboxEvent, is_pending, has_id, change_first, as_published,
}

abbrev pub waiting : OutboxRepo → List OutboxEvent
waiting events = retain (λ e. is_pending e.status) events

-- No two events have one identifier.
abbrev pub is_distinct : OutboxRepo → Bool
is_distinct [] = true
is_distinct (e ∷ es) = not (any (has_id e.id) es) && is_distinct es

pub waiting-has_id :
    (e : OutboxEvent) (rest events : List OutboxEvent)
    → waiting events ≡ e ∷ rest
    → any (has_id e.id) events ≡ true
waiting-has_id e rest [] h = absurd (ground (arith, h))
waiting-has_id e rest (x ∷ xs) h = elim (Bool-cases (is_pending x.status)) [
  | inl pending ↦ ground (arith, pending, h, uuid_key.same_iff x.id e.id)
  | inr settled ↦ ground (arith, settled, h, waiting-has_id e rest xs)
]

pub publish-waiting :
    (at : Time) (e : OutboxEvent) (rest events : List OutboxEvent)
    → is_distinct events ≡ true
    → waiting events ≡ e ∷ rest
    → waiting (change_first e.id (as_published at) events) ≡ rest
publish-waiting at e rest [] d h = absurd (ground (arith, h))
publish-waiting at e rest (x ∷ xs) d h = elim (Bool-cases (is_pending x.status)) [
  | inl pending ↦ ground (arith, pending, h, uuid_key.same_iff x.id e.id)
  | inr settled ↦ ground (
    arith,
    settled,
    d,
    h,
    waiting-has_id e rest xs,
    publish-waiting at e rest xs,
    uuid_key.same_iff x.id e.id,
  )
]

publish-has_id :
    (i id : Uuid) (at : Time) (events : List OutboxEvent)
    → any (has_id i) (change_first id (as_published at) events) ≡ any (has_id i) events
publish-has_id i id at [] = refl
publish-has_id i id at (x ∷ xs) = ground (arith, publish-has_id i id at xs)

pub publish-distinct :
    (id : Uuid) (at : Time) (events : List OutboxEvent)
    → is_distinct (change_first id (as_published at) events) ≡ is_distinct events
publish-distinct id at [] = refl
publish-distinct id at (x ∷ xs) =
    ground (arith, publish-distinct id at xs, publish-has_id x.id id at xs)
