-- ===== src/Jobs/Repo/Keys.antt =====
-- Keys, rows and races of the job repository (adapter/storage/memory/memory.go).
use vk_agregator.Base.{
  String, none, true, false, ◌≡◌, refl, ap, ◌∙◌, inl, inr, some, Uuid, arith, Option-cases,
}
use vk_agregator.Base.Eq.{text_key, uuid_key}
use vk_agregator.Base.Dict.{lookup, insert, contains, lookup-insert_self}
use vk_agregator.Base.Action.{ok, err, conflict, not_found}
use vk_agregator.Domain.Billing.{Time}
use vk_agregator.Domain.JobStatus.{JobStatus, status_beq}
use vk_agregator.Domain.Job.{Job}
use vk_agregator.Jobs.Repo.{
  JobRepo, create, new_row, store_new, get_by_idempotency_key, update_status, with_status, update,
  updated_row, store_job, list_for_account,
}

pub list_for_account-by_id : (j : Job) (r : JobRepo) → (list_for_account j r).by_id ≡ r.by_id
list_for_account-by_id j r = ground arith

list_for_account-by_key : (j : Job) (r : JobRepo) → (list_for_account j r).by_key ≡ r.by_key
list_for_account-by_key j r = ground arith

pub create_state :
    (id : Uuid) (now : Time) (j : Job) (r : JobRepo)
    → contains j.idempotency_key r.by_key ≡ false
    → create id now j r ≡ (ok (new_row id now j), store_new (new_row id now j) r)
unfolding create
create_state id now j r fresh = rw fresh refl

pub create_conflict :
    (id : Uuid) (now : Time) (j : Job) (r : JobRepo)
    → contains j.idempotency_key r.by_key ≡ true
    → create id now j r ≡ (err conflict, r)
unfolding create
create_conflict id now j r used = rw used refl

pub store_new-by_id : (j : Job) (r : JobRepo) → (store_new j r).by_id ≡ insert j.id j r.by_id
store_new-by_id j r = ground arith

pub store_new-by_key :
    (j : Job) (r : JobRepo) → (store_new j r).by_key ≡ insert j.idempotency_key j.id r.by_key
store_new-by_key j r = ground arith

-- The row of a key that the repository holds.
pub found_by_key :
    (key : String) (id : Uuid) (j : Job) (r : JobRepo)
    → lookup key r.by_key ≡ some id
    → lookup id r.by_id ≡ some j
    → get_by_idempotency_key key r ≡ (ok j, r)
unfolding get_by_idempotency_key
found_by_key key id j r known there = ground arith

pub missing_key :
    (key : String) (r : JobRepo)
    → lookup key r.by_key ≡ none
    → get_by_idempotency_key key r ≡ (err not_found, r)
unfolding get_by_idempotency_key
missing_key key r missing = ground arith

pub known_is_contained :
    (key : String) (id : Uuid) (r : JobRepo)
    → lookup key r.by_key ≡ some id
    → contains key r.by_key ≡ true
known_is_contained key id r known = ground arith

pub new_row_known :
    (id : Uuid) (now : Time) (j : Job) (r : JobRepo)
    → lookup j.idempotency_key (store_new (new_row id now j) r).by_key ≡ some (new_row id now j).id
unfolding new_row
new_row_known id now j r =
    ap (λ m. lookup j.idempotency_key m) (store_new-by_key (new_row id now j) r)
    ∙ lookup-insert_self j.idempotency_key (new_row id now j).id r.by_key

-- A status update that goes through found the row with that status.
pub update_status_won :
    (now : Time) (id : Uuid) (from to : JobStatus) (code message : String) (r : JobRepo)
    → (update_status now id from to code message r).0 ≡ ok tt
    → (j : Job) × (lookup id r.by_id ≡ some j)
      × (status_beq j.status from ≡ true)
      × ((update_status now id from to code message r).1
          ≡ store_job id (with_status to code message now j) r)
unfolding update_status
update_status_won now id from to code message r won = elim (Option-cases (lookup id r.by_id)) [
  | inl missing ↦ absurd (ground arith)
  | inr (j, found) ↦ (j, found, ground arith, ground arith)
]

pub update_status_lost :
    (now : Time) (id : Uuid) (from to : JobStatus) (code message : String) (j : Job) (r : JobRepo)
    → lookup id r.by_id ≡ some j
    → status_beq j.status from ≡ false
    → update_status now id from to code message r ≡ (err conflict, r)
unfolding update_status
update_status_lost now id from to code message j r found differs = rw found (rw differs refl)

-- Of two workers that move a job from the same status, one succeeds: after a status update that
-- answered `ok`, an update from the old status that directly follows it is a conflict that changes
-- nothing, as long as the status did change.
pub update_status-once :
    (now now' : Time) (id : Uuid) (from to to' : JobStatus) (code message code' message' : String)
    (r : JobRepo)
    → status_beq to from ≡ false
    → let t = update_status now id from to code message r in
      t.0 ≡ ok tt → update_status now' id from to' code' message' t.1 ≡ (err conflict, t.1)
update_status-once now now' id from to to' code message code' message' r changed won =
    let (j, found, was, moved) = update_status_won now id from to code message r won in
    let row = with_status to code message now j in
    rw moved (
      update_status_lost now' id from to' code' message' row (store_job id row r)
        (lookup-insert_self id row r.by_id) (unfold with_status in changed))

pub update_status-by_key :
    (now : Time) (id : Uuid) (from to : JobStatus) (code message : String) (r : JobRepo)
    → (update_status now id from to code message r).1.by_key ≡ r.by_key
unfolding update_status
update_status-by_key now id from to code message r = ground arith

pub update-by_key : (now : Time) (j : Job) (r : JobRepo) → (update now j r).1.by_key ≡ r.by_key
unfolding update
update-by_key now j r = elim (Option-cases (lookup j.id r.by_id)) [
  | inl missing ↦ ground arith
  | inr (cur, found) ↦ ground (
    arith,
    list_for_account-by_key (updated_row now cur j) (store_job j.id (updated_row now cur j) r),
  )
]

-- What an update that goes through leaves: the row with the status that it had.
pub update_ok :
    (now : Time) (j j' : Job) (r : JobRepo)
    → (update now j r).0 ≡ ok j'
    → (cur : Job) × (lookup j.id r.by_id ≡ some cur)
      × (j' ≡ updated_row now cur j)
      × ((update now j r).1.by_id ≡ insert j.id j' r.by_id)
unfolding update
update_ok now j j' r went = elim (Option-cases (lookup j.id r.by_id)) [
  | inl missing ↦ absurd (ground arith)
  | inr (cur, found) ↦ (
    cur,
    found,
    ground arith,
    ground (
      arith,
      list_for_account-by_id (updated_row now cur j) (store_job j.id (updated_row now cur j) r),
    ),
  )
]
