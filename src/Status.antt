-- ===== src/Status.antt =====
-- utils/status.h. Every Status of the program comes from one of the four named constructors, so the
-- message that the class keeps is one of four.
use yangkv_v.Base.{Bool, true, false}

pub data Status : Type 0 where
  ok not_found error corruption : Status

abbrev pub is_ok : Status → Bool
is_ok ok = true
is_ok _ = false

abbrev pub is_not_found : Status → Bool
is_not_found not_found = true
is_not_found _ = false

abbrev pub is_error : Status → Bool
is_error error = true
is_error _ = false

abbrev pub is_corruption : Status → Bool
is_corruption corruption = true
is_corruption _ = false
