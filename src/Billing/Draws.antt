-- ===== src/Billing/Draws.antt =====
-- What a call takes from outside the program: the identifiers that `uuid.New` gives it, and the time
-- that `time.Now` gives it.
use vk_agregator.Base.{Uuid, nil_uuid, if◌then◌else◌}
use vk_agregator.Base.Eq.{◌==◌, uuid_key}
use vk_agregator.Domain.Billing.{Time}

pub record Draw : Type 0 where
  pub id : Uuid
  pub entry_id : Uuid
  pub now : Time

-- An identifier, or another one where it is `uuid.Nil`.
abbrev pub or_uuid : Uuid → Uuid → Uuid
or_uuid a b = if a == nil_uuid then b else a
