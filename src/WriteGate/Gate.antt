-- ===== src/WriteGate/Gate.antt =====
-- `setOwnerWriteGate` and `ownerGateEnabled`. The configuration and the time are parameters; numbers
-- of the configuration are taken as `Number` reads them. The detail of the audit row is left out.
use ap_hub.Prelude.{
  ℕ, Bool, true, false, not, ◌&&◌, ◌||◌, String, str_eq, Option, none, some, List, [], ◌∷◌, ◌++◌,
  find, map, ◌==◌, if◌then◌else◌, Result, ok, ◌>>=◌, guard, present, change_if,
}
use ap_hub.Text.{Text, codes, text_eq, trim, is_empty}
use ap_hub.Access.Guard.{Actor, onboard, has_permission, is_valid_id}

-- `metadata.ownerWriteGate`: as it is written when it is enabled, and when it is disabled.
pub data OwnerGate : Type 0 where
  enabled : Text → ℕ → ℕ → ℕ → OwnerGate
  disabled : ℕ → ℕ → OwnerGate

-- A row of `connections`; of its metadata the ids of the company and the gate.
pub record ConnectionRow : Type 0 where
  pub id : ℕ
  pub tenant_id : ℕ
  pub provider : String
  pub external_company : Option Text
  pub status : String
  pub expected_company_id : Option Text
  pub observed_company_id : Option Text
  pub owner_write_gate : Option OwnerGate

pub record GateConfig : Type 0 where
  pub qbo_is_production : Bool
  pub qbo_production_write_enabled : Bool
  pub qbo_production_realm_id : Option Text
  pub qb_desktop_enabled : Bool
  pub qb_desktop_write_enabled : Bool
  pub qb_desktop_tenant_id : Option ℕ
  pub qb_desktop_connection_id : Option ℕ
  pub qb_desktop_company_id : Option Text

pub record GateInput : Type 0 where
  pub wants : Bool
  pub confirmed_company_id : Text
  pub backup_confirmed : Bool
  pub confirmation : Text

pub data GateFault : Type 0 where
  forbidden invalid_id not_confirmed identity_and_backup_required : GateFault
  connection_not_found unsupported_connection company_mismatch : GateFault
  qbo_master_switch desktop_binding : GateFault

pub record GateAudit : Type 0 where
  pub tenant_id : ℕ
  pub actor : String
  pub enables : Bool
  pub connection : ℕ

pub record GateStore : Type 0 where
  pub connections : List ConnectionRow
  pub audits : List GateAudit

abbrev pub is_connection_row : ℕ → ℕ → ConnectionRow → Bool
is_connection_row tenant id row = (row.tenant_id == tenant) && (row.id == id)

abbrev pub is_text : Text → Option Text → Bool
is_text text none = false
is_text text (some t) = text_eq t text

abbrev pub is_number : ℕ → Option ℕ → Bool
is_number n none = false
is_number n (some m) = m == n

-- `a ?? b ?? ''`
abbrev pub first_of : Option Text → Option Text → Text
first_of (some a) b = a
first_of none (some b) = b
first_of none none = []

abbrev pub is_qbd : ConnectionRow → Bool
is_qbd row = str_eq row.provider "qbd"

abbrev pub is_qbo : ConnectionRow → Bool
is_qbo row = str_eq row.provider "qbo"

abbrev pub expected_company : ConnectionRow → Text
expected_company row =
    if is_qbd row
    then first_of row.expected_company_id row.external_company
    else first_of row.external_company none

abbrev pub is_supported : ConnectionRow → Bool
is_supported row = (is_qbo row || is_qbd row) && str_eq row.status "active"

-- What must be set up for production QuickBooks Online, and for QuickBooks Desktop.
abbrev pub qbo_ready : GateConfig → Text → Bool
qbo_ready cfg company =
    cfg.qbo_production_write_enabled && is_text company cfg.qbo_production_realm_id

abbrev pub desktop_ready : GateConfig → ℕ → ℕ → Text → ConnectionRow → Bool
desktop_ready cfg tenant connection company row =
    cfg.qb_desktop_enabled
    && cfg.qb_desktop_write_enabled
    && is_number tenant cfg.qb_desktop_tenant_id
    && is_number connection cfg.qb_desktop_connection_id
    && is_text company cfg.qb_desktop_company_id
    && is_text company row.observed_company_id

abbrev pub gate_of : Bool → Text → ℕ → ℕ → OwnerGate
gate_of true company user now = enabled company now now user
gate_of false company user now = disabled now user

abbrev pub set_gate : OwnerGate → ConnectionRow → ConnectionRow
set_gate gate row = record row { owner_write_gate = some gate }

-- The tests of the row that was read, and the write.
unfoldable pub gate_row :
    GateConfig
    → ℕ
    → String
    → Actor
    → ℕ
    → GateInput
    → Text
    → GateStore
    → ConnectionRow
    → Result GateFault GateStore
unfolding text_eq
gate_row cfg now label ctx connection input company s row = do
  _ ← guard (is_supported row) unsupported_connection
  _ ← guard (not (input.wants && not (text_eq company (expected_company row)))) company_mismatch
  _ ←
      guard
        (not (input.wants && is_qbo row && cfg.qbo_is_production && not (qbo_ready cfg company)))
        qbo_master_switch
  _ ←
      guard
        (not (
          input.wants
          && is_qbd row
          && not (desktop_ready cfg ctx.tenant_id connection company row)))
        desktop_binding
  ok (record {
    connections =
        map
          (change_if (is_connection_row ctx.tenant_id connection)
            (set_gate (gate_of input.wants company ctx.user_id now)))
          s.connections;
    audits =
        s.audits
        ++ record {
          tenant_id = ctx.tenant_id;
          actor = label;
          enables = input.wants;
          connection = connection;
        }
          ∷ [];
  })

unfoldable pub set_owner_write_gate :
    GateConfig → ℕ → String → Actor → ℕ → GateInput → GateStore → Result GateFault GateStore
unfolding has_permission text_eq trim gate_row
set_owner_write_gate cfg now label ctx connection input s = do
  _ ← guard (has_permission ctx onboard) forbidden
  _ ← guard (is_valid_id connection) invalid_id
  _ ←
      guard (not (not (text_eq input.confirmation (codes "ENABLE WRITES")) && input.wants))
        not_confirmed
  let company = trim input.confirmed_company_id
  _ ←
      guard (not (input.wants && (is_empty company || not input.backup_confirmed)))
        identity_and_backup_required
  row ←
      present (find (is_connection_row ctx.tenant_id connection) s.connections) connection_not_found
  gate_row cfg now label ctx connection input company s row

-- An enabled gate always carries the time of its backup.
abbrev pub opens : Text → Option OwnerGate → Bool
opens company none = false
opens company (some (enabled confirmed backup_at confirmed_at user)) = text_eq confirmed company
opens company (some (disabled at user)) = false

unfoldable pub owner_gate_enabled : ConnectionRow → Text → Bool
unfolding text_eq
owner_gate_enabled row company = opens company row.owner_write_gate
