-- ===== src/Governance.antt =====
-- internal/persistence/store.go: the durable boundary that the control plane calls, and the errors
-- of internal/persistence/sql.go.
use kubebox.Common.{Text, ℤ, Option}

-- A `time.Time`: nanoseconds since Go's zero time.
abbrev pub Time : Type 0
Time = ℤ

pub data GovError : Type 0 where
  invalid_argument quota_exceeded quota_below_usage quota_not_configured : GovError
  quota_corrupt allocation_not_found allocation_state : GovError
  other : Text → GovError

-- The interface `GovernanceStore` over a state `G`: a method returns the state after the call and
-- the error, if any. Its context argument carries no data.
pub record GovernanceStore (G : Type 0) : Type 0 where
  pub set_quota : G → Text → Text → ℤ → G × Option GovError
  pub reserve_allocation : G → Text → Text → Text → Text → Time → G × Option GovError
  pub release_allocation : G → Text → Text → Text → Time → G × Option GovError
  pub insert_idempotency_pending : G → Text → Text → Text → Text → Time → G × Option GovError
