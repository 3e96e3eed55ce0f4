-- ===== src/Supervision/SelfClose/Retired.antt =====
-- `clear` of src/supervision/self-close.ts: every promise is resolved toward waking, and nothing that
-- follows suppresses a wake.
use herdr_tools.Base.{◌≡◌, true, [], Option}
use herdr_tools.Supervision.SelfClose.{Tracker, Claim}
use herdr_tools.Supervision.SelfClose.Steps.{suppressed}

pub record IsCleared (t : Tracker) : Type 0 where
  pub flag : t.cleared ≡ true
  pub empty : t.entries ≡ []

-- What a call on a cleared tracker leaves as it was.
record IsQuiet (t : Tracker) (r : Option Claim) (u : Tracker) : Type 0 where
  still : IsCleared u
  answers : u.answers ≡ t.answers
  silent : suppressed r ≡ 0
