-- ===== src/Jobs/Repo.antt =====
-- adapter/storage/memory/memory.go: `JobRepo`, method by method. Each method holds the mutex from
-- start to end, so it is one step on the state.
pub mod Keys
pub mod Claimed
use Prim.Native.String.{compare}
use Prim.Native.Nat.{Ordering}
use vk_agregator.Base.{
  ℕ, ◌+◌, String, Bool, true, false, not, ◌&&◌, ◌||◌, Option, none, some, List, [], ◌∷◌, map, Uuid,
  nil_uuid, if◌then◌else◌, ltb, nat_beq,
}
use vk_agregator.Base.Text.{trim_space}
use vk_agregator.Base.Lists.{take, drop, retain, length}
use vk_agregator.Base.Eq.{◌==◌, uuid_key, text_key}
use vk_agregator.Base.Dict.{Dict, lookup, insert, contains, lookup_or}
use vk_agregator.Base.Action.{
  Action, Result, ok, err, not_found, conflict, pure, raise, or_raise, gets, modify, raise_if,
  ◌>>=◌, ◌>>◌,
}
use vk_agregator.Base.Int.{pos}
use vk_agregator.Domain.Billing.{Time}
use vk_agregator.Domain.JobStatus.{JobStatus, is_active_work, status_beq}
use vk_agregator.Domain.Job.{Job, OperationType, Modality, operation_beq, modality_beq}
use vk_agregator.Billing.{or_uuid}

pub record JobRepo : Type 0 where
  pub by_id : Dict Uuid Job
  pub by_key : Dict String Uuid
  pub by_user : Dict Uuid (List Uuid)

abbrev pub new_job_repo : JobRepo
new_job_repo = record { by_id = []; by_key = []; by_user = [] }

-- `strings.TrimSpace`, and "unknown" where nothing is left.
unfoldable pub or_unknown : String → String
or_unknown s = if trim_space s == "" then "unknown" else trim_space s

abbrev pub list_job : Uuid → Uuid → JobRepo → JobRepo
list_job owner id r = record r {
  by_user = insert owner (id ∷ lookup_or [] owner r.by_user) r.by_user;
}

-- An account that is not the user's own has its own list.
abbrev pub list_for_account : Job → JobRepo → JobRepo
list_for_account j r =
    if not (j.account_id == nil_uuid) && not (j.account_id == j.user_id)
    then list_job j.account_id j.id r
    else r

unfoldable pub new_row : Uuid → Time → Job → Job
new_row id now j = record j {
  id = or_uuid j.id id;
  account_id = or_uuid j.account_id j.user_id;
  source = or_unknown j.source;
  created_at = now;
  updated_at = now;
}

abbrev pub store_new : Job → JobRepo → JobRepo
store_new j r = list_for_account j (
    list_job j.user_id j.id
      (record r { by_id = insert j.id j r.by_id; by_key = insert j.idempotency_key j.id r.by_key }))

-- `Create`: the job as it is stored, which is what the caller's pointer holds afterwards.
unfoldable pub create : Uuid → Time → Job → Action JobRepo Job
create id now j = do
  raise_if (← gets λ r. contains j.idempotency_key r.by_key) conflict
  let j' = new_row id now j
  modify (store_new j')
  pure j'

unfoldable pub get_by_id : Uuid → Action JobRepo Job
get_by_id id = do or_raise (← gets λ r. lookup id r.by_id) not_found

-- The zero value that Go's map gives for a missing row.
abbrev pub zero_job : Job
zero_job = record {
  id = nil_uuid;
  user_id = nil_uuid;
  account_id = nil_uuid;
  source = "";
  vk_peer_id = pos 0;
  command_id = nil_uuid;
  operation_type = OperationType.other "";
  modality = Modality.other "";
  provider_id = none;
  model_id = none;
  status = JobStatus.other "";
  priority = pos 0;
  idempotency_key = "";
  correlation_id = "";
  input_artifact_ids = [];
  output_artifact_ids = [];
  params = "";
  pricing_snapshot = none;
  cost_estimate = pos 0;
  cost_reserved = pos 0;
  cost_captured = pos 0;
  error_code = "";
  error_message = "";
  created_at = 0;
  updated_at = 0;
  expires_at = none;
}

unfoldable pub get_by_idempotency_key : String → Action JobRepo Job
get_by_idempotency_key key = do
  id ← or_raise (← gets λ r. lookup key r.by_key) not_found
  gets λ r. lookup_or zero_job id r.by_id

unfoldable pub with_status : JobStatus → String → String → Time → Job → Job
with_status to code message now j = record j {
  status = to;
  error_code = code;
  error_message = message;
  updated_at = now;
}

abbrev pub store_job : Uuid → Job → JobRepo → JobRepo
store_job id j r = record r { by_id = insert id j r.by_id }

unfoldable pub update_status :
    Time → Uuid → JobStatus → JobStatus → String → String → Action JobRepo (Unit {0})
update_status now id from to code message = do
  j ← or_raise (← gets λ r. lookup id r.by_id) not_found
  raise_if (not (status_beq j.status from)) conflict
  modify (store_job id (with_status to code message now j))

-- What `Update` writes over a row: the caller's job, with the row's status and creation time.
unfoldable pub updated_row : Time → Job → Job → Job
updated_row now cur j = record j {
  account_id = or_uuid (or_uuid j.account_id cur.account_id) j.user_id;
  source = or_unknown j.source;
  status = cur.status;
  created_at = cur.created_at;
  updated_at = now;
}

unfoldable pub update : Time → Job → Action JobRepo Job
update now j = do
  cur ← or_raise (← gets λ r. lookup j.id r.by_id) not_found
  let j' = updated_row now cur j
  modify λ r. list_for_account j' (store_job j.id j' r)
  pure j'

abbrev pub rows : JobRepo → List Job
rows r = map (λ entry. entry.1) r.by_id

abbrev pub text_after : String → String → Bool
text_after a b = elim (compare a b) [ Ordering.gt ↦ true | _ ↦ false ]

-- An empty text, and a pointer to nothing, restrict nothing: `none`.
pub record JobFilter : Type 0 where
  pub user_id : Option Uuid
  pub account_id : Option Uuid
  pub status : Option JobStatus
  pub operation : Option OperationType
  pub modality : Option Modality
  pub error_code : String
  pub provider : String
  pub correlation_id : String
  pub created_from : Option Time
  pub created_to : Option Time

pub record JobCursor : Type 0 where
  pub created_at : Time
  pub id : Uuid

module _ (uuid_string : Uuid → String) where
  -- The order of listings: newest first, and by identifier where two are as new.
  abbrev pub listed_before : Job → Job → Bool
  listed_before a b =
      if nat_beq a.created_at b.created_at
      then text_after (uuid_string a.id) (uuid_string b.id)
      else ltb b.created_at a.created_at

  abbrev pub place : Job → List Job → List Job
  place j [] = j ∷ []
  place j (x ∷ xs) = if listed_before j x then j ∷ x ∷ xs else x ∷ place j xs

  -- `sort.Slice`; no two rows compare equal, since their identifiers differ.
  abbrev pub sort_jobs : List Job → List Job
  sort_jobs [] = []
  sort_jobs (j ∷ js) = place j (sort_jobs js)

  unfoldable pub jobs_for_owner_locked : (Job → Bool) → JobRepo → List Job
  jobs_for_owner_locked matches r = sort_jobs (retain matches (rows r))

  abbrev owned : Uuid → Job → Bool
  owned owner j = j.account_id == owner

  abbrev used : Uuid → Job → Bool
  used owner j = j.user_id == owner

  abbrev or_else : List Job → List Job → List Job
  or_else [] ys = ys
  or_else (x ∷ xs) ys = x ∷ xs

  unfoldable pub list_by_user : Uuid → ℕ → ℕ → Action JobRepo (List Job)
  unfolding jobs_for_owner_locked
  list_by_user owner limit offset = gets λ r. take limit (
      drop offset
        (or_else (jobs_for_owner_locked (owned owner) r) (jobs_for_owner_locked (used owner) r)))

  abbrev admits : {A : Type 0} → Option A → (A → Bool) → Bool
  admits none f = true
  admits (some a) f = f a

  abbrev admits_text : String → String → Bool
  admits_text wanted s = wanted == "" || wanted == s

  abbrev has_provider : String → Option Uuid → Bool
  has_provider wanted none = wanted == ""
  has_provider wanted (some id) = admits_text wanted (uuid_string id)

  unfoldable pub passes : JobFilter → Job → Bool
  passes f j =
      admits f.user_id (λ u. j.user_id == u || j.account_id == u)
      && admits f.account_id (λ a. j.account_id == a)
      && admits f.status (λ s. status_beq j.status s)
      && admits f.operation (λ o. operation_beq j.operation_type o)
      && admits f.modality (λ m. modality_beq j.modality m)
      && admits_text f.error_code j.error_code
      && has_provider f.provider j.provider_id
      && admits_text f.correlation_id j.correlation_id
      && admits f.created_from (λ t. not (ltb j.created_at t))
      && admits f.created_to (λ t. ltb j.created_at t)

  unfoldable pub filter_jobs_locked : JobFilter → JobRepo → List Job
  filter_jobs_locked f r = sort_jobs (retain (passes f) (rows r))

  unfoldable pub list : JobFilter → ℕ → ℕ → Action JobRepo (List Job)
  list f limit offset = gets λ r. take limit (drop offset (filter_jobs_locked f r))

  -- A row that the page before has shown.
  abbrev shown : JobCursor → Job → Bool
  shown after j =
      ltb after.created_at j.created_at
      || (nat_beq j.created_at after.created_at
          && not (text_after (uuid_string after.id) (uuid_string j.id)))

  -- The loop tests the limit after it has taken a row, so it takes one at least.
  unfoldable pub list_cursor : JobFilter → ℕ → Option JobCursor → Action JobRepo (List Job)
  list_cursor f limit after = gets λ r.
      take (if nat_beq limit 0 then 1 else limit)
        (retain (λ j. admits after (λ c. not (shown c j))) (filter_jobs_locked f r))

unfoldable pub count_jobs_by_owner_locked : (Job → Bool) → JobRepo → ℕ
count_jobs_by_owner_locked matches r = length (retain matches (rows r))

abbrev pub or_count : ℕ → ℕ → ℕ
or_count a b = if ltb 0 a then a else b

unfoldable pub count_active_by_user_operation : Uuid → OperationType → Action JobRepo ℕ
count_active_by_user_operation owner op = gets λ r.
    or_count
      (count_jobs_by_owner_locked
        (λ j. j.account_id == owner && operation_beq j.operation_type op && is_active_work j.status)
        r)
      (count_jobs_by_owner_locked
        (λ j. j.user_id == owner && operation_beq j.operation_type op && is_active_work j.status) r)

unfoldable pub count_succeeded_by_user : Uuid → Action JobRepo ℕ
count_succeeded_by_user owner = gets λ r.
    or_count
      (count_jobs_by_owner_locked
        (λ j. j.account_id == owner && status_beq j.status JobStatus.succeeded) r)
      (count_jobs_by_owner_locked
        (λ j. j.user_id == owner && status_beq j.status JobStatus.succeeded) r)
