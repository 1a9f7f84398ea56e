-- ===== src/Api/ClusterClaims.antt =====
-- api/v1alpha1/clusterclaim_types.go
use smeltry_operator.Base.{ℕ, String, Option, List}
use smeltry_operator.Api.Meta.{ObjectMeta, Condition}

-- ClusterClaimPhase is a string: `unset` is "", and `other` any text that is no constant.
pub data ClusterClaimPhase : Type 0 where
  unset pending provisioning cluster_ready addons_ready ready failed : ClusterClaimPhase
  other : String → ClusterClaimPhase

unfoldable pub cluster_claim_phase_text : ClusterClaimPhase → String
cluster_claim_phase_text unset = ""
cluster_claim_phase_text pending = "Pending"
cluster_claim_phase_text provisioning = "Provisioning"
cluster_claim_phase_text cluster_ready = "ClusterReady"
cluster_claim_phase_text addons_ready = "AddonsReady"
cluster_claim_phase_text ready = "Ready"
cluster_claim_phase_text failed = "Failed"
cluster_claim_phase_text (other text) = text

-- The condition types that the controller sets.
abbrev pub condition_validated : String
condition_validated = "Validated"

abbrev pub condition_machine_cfg_done : String
condition_machine_cfg_done = "MachineCfgDone"

abbrev pub condition_capi_ready : String
condition_capi_ready = "CAPIReady"

abbrev pub condition_addons_ready : String
condition_addons_ready = "AddonsReady"

pub record ClusterClaimSpec : Type 0 where
  pub machine_class : String
  pub machine_count : ℕ
  pub site : String
  pub addon_profile : String

-- OSDDevices, a Go map from a device ID in decimal to disk names, as an association list.
abbrev pub OsdDevices : Type 0
OsdDevices = List (String × List String)

pub record ClusterClaimStatus : Type 0 where
  pub phase : ClusterClaimPhase
  pub conditions : List Condition
  pub control_plane_ip : String
  pub control_plane_dns : String
  pub webhook_ip : String
  pub webhook_dns : String
  pub netbox_ipam_ids : List ℕ
  pub allocated_machine_ids : List ℕ
  pub osd_devices : OsdDevices
  pub kubeconfig_secret : String
  pub cluster_ref : Option String

pub record ClusterClaim : Type 0 where
  pub meta : ObjectMeta
  pub spec : ClusterClaimSpec
  pub status : ClusterClaimStatus
