-- ===== src/Jobs/Repo/Claimed.antt =====
-- A job keeps its idempotency key (adapter/storage/memory/memory.go), whatever is written afterwards.
use vk_agregator.Base.{
  String, none, false, ◌≡◌, ap, ◌∙◌, inl, inr, Option, some, Uuid, arith, Option-cases, Bool-cases,
}
use vk_agregator.Base.Eq.{text_key, uuid_key}
use vk_agregator.Base.Dict.{lookup, contains, lookup-insert, lookup-insert_self}
use vk_agregator.Base.Action.{ok, err, conflict}
use vk_agregator.Domain.Billing.{Time}
use vk_agregator.Domain.JobStatus.{JobStatus, status_beq}
use vk_agregator.Domain.Job.{Job}
use vk_agregator.Jobs.Repo.{
  JobRepo, create, new_row, get_by_idempotency_key, update_status, with_status, update, updated_row,
  store_job,
}
use vk_agregator.Jobs.Repo.Keys.{
  create_state, create_conflict, found_by_key, known_is_contained, new_row_known,
  list_for_account-by_id, store_new-by_id, store_new-by_key, update_status-by_key, update-by_key,
}

abbrev pub row_id : Option Job → Option Uuid
row_id none = none
row_id (some j) = some j.id

-- A job of that identifier is stored under it.
abbrev pub IsKept : Uuid → JobRepo → Type 0
IsKept id r = row_id (lookup id r.by_id) ≡ some id

pub update_status-IsKept :
    (id i : Uuid) (from to : JobStatus) (code message : String) (now : Time) (r : JobRepo)
    → IsKept id r
    → IsKept id (update_status now i from to code message r).1
unfolding update_status with_status
update_status-IsKept id i from to code message now r h = elim (Option-cases (lookup i r.by_id)) [
  | inl missing ↦ ground (arith, missing, h)
  | inr (j, found) ↦ elim (Bool-cases (status_beq j.status from)) [
    | inr differs ↦ ground (arith, found, differs, h)
    | inl same ↦ ground (
      arith,
      found,
      same,
      h,
      lookup-insert i id (with_status to code message now j) r.by_id,
      uuid_key.same_iff i id,
    )
  ]
]

pub update-IsKept :
    (id : Uuid) (now : Time) (j : Job) (r : JobRepo) → IsKept id r → IsKept id (update now j r).1
unfolding update updated_row
update-IsKept id now j r h = elim (Option-cases (lookup j.id r.by_id)) [
  | inl missing ↦ ground (arith, missing, h)
  | inr (cur, found) ↦ ground (
    arith,
    found,
    h,
    list_for_account-by_id (updated_row now cur j) (store_job j.id (updated_row now cur j) r),
    lookup-insert j.id id (updated_row now cur j) r.by_id,
    uuid_key.same_iff j.id id,
  )
]

create-IsKept :
    (id i : Uuid) (now : Time) (j : Job) (r : JobRepo)
    → IsKept id r
    → IsKept id (create i now j r).1
create-IsKept id i now j r h = elim (Bool-cases (contains j.idempotency_key r.by_key)) [
  | inl used ↦ ap (λ t. row_id (lookup id t.1.by_id)) (create_conflict i now j r used) ∙ h
  | inr fresh ↦
      let row = new_row i now j in
      ap (λ t. row_id (lookup id t.1.by_id)) (create_state i now j r fresh)
      ∙ ap (λ m. row_id (lookup id m)) (store_new-by_id row r)
      ∙ ground (arith, h, lookup-insert row.id id row r.by_id, uuid_key.same_iff row.id id)
]

create-by_key :
    (key : String) (id i : Uuid) (now : Time) (j : Job) (r : JobRepo)
    → lookup key r.by_key ≡ some id
    → lookup key (create i now j r).1.by_key ≡ some id
unfolding new_row
create-by_key key id i now j r h = elim (Bool-cases (contains j.idempotency_key r.by_key)) [
  | inl used ↦ ap (λ t. lookup key t.1.by_key) (create_conflict i now j r used) ∙ h
  | inr fresh ↦
      let row = new_row i now j in
      ap (λ t. lookup key t.1.by_key) (create_state i now j r fresh)
      ∙ ap (λ m. lookup key m) (store_new-by_key row r)
      ∙ ground (
        arith,
        h,
        fresh,
        lookup-insert row.idempotency_key key row.id r.by_key,
        text_key.same_iff row.idempotency_key key,
      )
]

-- Any calls that write to the repository, in any order, failed ones too.
pub data Writes (r : JobRepo) : JobRepo → Type 0 where
  start : Writes r r
  creates :
      {s : JobRepo} (id : Uuid) (now : Time) (j : Job) → Writes r s → Writes r (create id now j s).1
  updates : {s : JobRepo} (now : Time) (j : Job) → Writes r s → Writes r (update now j s).1
  moves :
      {s : JobRepo} (now : Time) (id : Uuid) (from to : JobStatus) (code message : String)
      → Writes r s
      → Writes r (update_status now id from to code message s).1

Writes-IsKept : {r s : JobRepo} (id : Uuid) → Writes r s → IsKept id r → IsKept id s
Writes-IsKept id start h = h
Writes-IsKept id (creates {s} i now j w) h = create-IsKept id i now j s (Writes-IsKept id w h)
Writes-IsKept id (updates {s} now j w) h = update-IsKept id now j s (Writes-IsKept id w h)
Writes-IsKept id (moves {s} now i from to code message w) h =
    update_status-IsKept id i from to code message now s (Writes-IsKept id w h)

Writes-by_key :
    {r s : JobRepo} (key : String) (id : Uuid)
    → Writes r s
    → lookup key r.by_key ≡ some id
    → lookup key s.by_key ≡ some id
Writes-by_key key id start h = h
Writes-by_key key id (creates {s} i now j w) h =
    create-by_key key id i now j s (Writes-by_key key id w h)
Writes-by_key key id (updates {s} now j w) h =
    ap (λ m. lookup key m) (update-by_key now j s) ∙ Writes-by_key key id w h
Writes-by_key key id (moves {s} now i from to code message w) h =
    ap (λ m. lookup key m) (update_status-by_key now i from to code message s)
    ∙ Writes-by_key key id w h

-- What a key that is kept finds.
kept-found :
    (key : String) (id : Uuid) (r : JobRepo)
    → lookup key r.by_key ≡ some id
    → IsKept id r
    → (j : Job) × (j.id ≡ id) × (get_by_idempotency_key key r ≡ (ok j, r))
kept-found key id r known h = elim (Option-cases (lookup id r.by_id)) [
  | inl missing ↦ absurd (ground (arith, missing, h))
  | inr (j, there) ↦ (j, ground (arith, there, h), found_by_key key id j r known there)
]

-- Creating a job claims its idempotency key for good. A job created under a key that was free is what
-- the key finds right afterwards, with the identifier, account, source and times that `Create` fills
-- in. And after any further calls of `Create`, `Update` and `UpdateStatus`, failed ones too, the key
-- finds a job of that identifier, and another `Create` under the key, of any job, is a conflict that
-- changes nothing.
pub create-once :
    (id id' : Uuid) (now now' : Time) (j other : Job) (r t : JobRepo)
    → contains j.idempotency_key r.by_key ≡ false
    → other.idempotency_key ≡ j.idempotency_key
    → Writes (create id now j r).1 t
    → (get_by_idempotency_key j.idempotency_key (create id now j r).1
        ≡ (ok (new_row id now j), (create id now j r).1))
      × ((found : Job) × (found.id ≡ (new_row id now j).id)
          × (get_by_idempotency_key j.idempotency_key t ≡ (ok found, t)))
      × (create id' now' other t ≡ (err conflict, t))
create-once id id' now now' j other r t fresh same writes =
    let row = new_row id now j in
    let moved = ap (λ x. x.1) (create_state id now j r fresh) in
    let known = ap (λ x. lookup j.idempotency_key x.by_key) moved ∙ new_row_known id now j r in
    let there =
      ap (λ x. lookup row.id x.by_id) moved
      ∙ ap (λ m. lookup row.id m) (store_new-by_id row r)
      ∙ lookup-insert_self row.id row r.by_id in
    let later = Writes-by_key j.idempotency_key row.id writes known in
    (
      found_by_key j.idempotency_key row.id row (create id now j r).1 known there,
      kept-found j.idempotency_key row.id t later (Writes-IsKept row.id writes (ap row_id there)),
      create_conflict id' now' other t
          (rw same (known_is_contained j.idempotency_key row.id t later)),
    )
