-- ===== src/WriteGate/Tests.antt =====
-- A gate of QuickBooks Online in production.
use ap_hub.Prelude.{◌≡◌, refl, true, false, none, some, [], ◌∷◌, ok, err}
use ap_hub.Text.{codes}
use ap_hub.Access.Guard.{Actor}
use ap_hub.WriteGate.Gate.{
  ConnectionRow, GateConfig, GateInput, GateStore, qbo_master_switch, set_owner_write_gate, enabled,
}
use ap_hub.WriteGate.Confirmed.{Confirmed, enable-Confirmed}

abbrev cfg : GateConfig
cfg = record {
  qbo_is_production = true;
  qbo_production_write_enabled = true;
  qbo_production_realm_id = some (codes "r1");
  qb_desktop_enabled = false;
  qb_desktop_write_enabled = false;
  qb_desktop_tenant_id = none;
  qb_desktop_connection_id = none;
  qb_desktop_company_id = none;
}

abbrev owner : Actor
owner = record { user_id = 4; tenant_id = 1; role = "owner_controller"; email = none; actor = none }

abbrev row : ConnectionRow
row = record {
  id = 2;
  tenant_id = 1;
  provider = "qbo";
  external_company = some (codes "r1");
  status = "active";
  expected_company_id = none;
  observed_company_id = none;
  owner_write_gate = none;
}

abbrev store : GateStore
store = record { connections = row ∷ []; audits = [] }

abbrev input : GateInput
input = record {
  wants = true;
  confirmed_company_id = codes " r1 ";
  backup_confirmed = true;
  confirmation = codes "ENABLE WRITES";
}

abbrev opened : GateStore
opened = record {
  connections = record row { owner_write_gate = some (enabled (codes "r1") 9 9 4) } ∷ [];
  audits = record { tenant_id = 1; actor = "user:4"; enables = true; connection = 2 } ∷ [];
}

enables : set_owner_write_gate cfg 9 "user:4" owner 2 input store ≡ ok opened
unfolding set_owner_write_gate
enables = refl

switched_off :
    set_owner_write_gate
      (record cfg { qbo_production_write_enabled = false })
      9
      "user:4"
      owner
      2
      input
      store
    ≡ err qbo_master_switch
unfolding set_owner_write_gate
switched_off = refl

enable-Confirmed_example : Confirmed cfg owner 2 input store opened
enable-Confirmed_example = enable-Confirmed cfg 9 "user:4" owner 2 input store opened refl enables
