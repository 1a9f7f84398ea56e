-- ===== src/Api/AuditEvents.antt =====
-- api/v1alpha1/auditevent_types.go
use smeltry_operator.Base.{ℕ, String, ℤ}
use smeltry_operator.Api.Meta.{ObjectMeta}

abbrev pub audit_type_phase_changed : String
audit_type_phase_changed = "PhaseChanged"

abbrev pub audit_type_machine_allocated : String
audit_type_machine_allocated = "MachineAllocated"

abbrev pub audit_type_cluster_deleted : String
audit_type_cluster_deleted = "ClusterDeleted"

abbrev pub audit_type_server_deleted : String
audit_type_server_deleted = "ServerDeleted"

pub record AuditEventSpec : Type 0 where
  pub type : String
  pub resource_kind : String
  pub resource_name : String
  pub actor : String
  pub old_phase : String
  pub new_phase : String
  pub machine_id : ℕ
  pub timestamp : ℤ
  pub ttl : String

-- A spec with its type, kind and name given, and Go's zero value in every other field.
abbrev pub audit_event_spec : String → String → String → AuditEventSpec
audit_event_spec type kind name = record {
  type = type;
  resource_kind = kind;
  resource_name = name;
  actor = "";
  old_phase = "";
  new_phase = "";
  machine_id = 0;
  timestamp = ℤ.pos 0;
  ttl = "";
}

pub record AuditEvent : Type 0 where
  pub meta : ObjectMeta
  pub spec : AuditEventSpec
