-- ===== src/Api/ServerClaims.antt =====
-- api/v1alpha1/other_types.go, ServerClaim
use smeltry_operator.Base.{ℕ, String, List}
use smeltry_operator.Api.Meta.{ObjectMeta, Condition}

-- ServerClaimPhase is a string: `unset` is "", and `other` any text that is no constant.
pub data ServerClaimPhase : Type 0 where
  unset pending provisioning ready failed : ServerClaimPhase
  other : String → ServerClaimPhase

unfoldable pub server_claim_phase_text : ServerClaimPhase → String
server_claim_phase_text unset = ""
server_claim_phase_text pending = "Pending"
server_claim_phase_text provisioning = "Provisioning"
server_claim_phase_text ready = "Ready"
server_claim_phase_text failed = "Failed"
server_claim_phase_text (other text) = text

pub record ServerClaimSpec : Type 0 where
  pub machine_class : String
  pub site : String
  pub os : String

pub record ServerClaimStatus : Type 0 where
  pub phase : ServerClaimPhase
  pub conditions : List Condition
  pub server_ip : String
  pub server_dns : String
  pub netbox_ipam_id : ℕ
  pub allocated_machine_id : ℕ

pub record ServerClaim : Type 0 where
  pub meta : ObjectMeta
  pub spec : ServerClaimSpec
  pub status : ServerClaimStatus
