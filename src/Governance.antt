-- ===== src/Governance.antt =====
-- governance/materiality, reviews/decisions and reviews/packages: what a release gate is given.
pub mod Assurance
pub mod Reports
mod Tests
use native.Mathlib.Decide.{ℕ_discrete}
use alos_backend.Prelude.{ℕ, String, Option, Bool, true, false, Eq, decided, decided_iff}

pub data Materiality : Type 0 where
  non_material material : Materiality

-- `requires_director`
unfoldable pub requires_director : Materiality → Bool
requires_director material = true
requires_director non_material = false

pub data DecisionOutcome : Type 0 where
  approved returned rejected hold : DecisionOutcome

pub data AuthorityLevel : Type 0 where
  it director : AuthorityLevel

pub record AuthoritativeDecision : Type 0 where
  pub decision_id : String
  pub review_id : String
  pub tenant_id : Option String
  pub workspace_id : Option String
  pub release_id : Option String
  pub correlation_id : Option String
  pub subject_id : Option String
  pub authority : AuthorityLevel
  pub outcome : DecisionOutcome
  pub actor_id : String
  pub rationale : String
  pub decided_at : ℕ

pub record ReviewPackageReference : Type 0 where
  pub review_id : String
  pub tenant_id : String
  pub workspace_id : String
  pub subject_id : String
  pub subject_version : String
  pub contract_version : String
  pub evidence_uri : String
  pub recorded_at : ℕ
