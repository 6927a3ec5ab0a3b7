-- ===== src/WriteGate/Confirmed.antt =====
-- When the gate of a company is open, and what an enabling has checked.
use ap_hub.Prelude.{
  ℕ, ◌≡◌, refl, subst, sym, true, not, ◌&&◌, ◌||◌, String, some, find, arith, ok, >>=-ok, guard->>=,
  present, present-ok, ok_injective, find-change_if,
}
use ap_hub.Text.{codes, text_eq, text_eq_sound, text_eq_refl, trim, is_empty}
use ap_hub.Access.Guard.{Actor, onboard, has_permission, is_valid_id}
use ap_hub.WriteGate.Gate.{
  ConnectionRow, GateConfig, GateInput, forbidden, invalid_id, not_confirmed,
  identity_and_backup_required, connection_not_found, unsupported_connection, company_mismatch,
  qbo_master_switch, desktop_binding, GateStore, is_connection_row, is_qbd, is_qbo,
  expected_company, is_supported, qbo_ready, desktop_ready, gate_of, set_gate, gate_row,
  set_owner_write_gate, owner_gate_enabled,
}

-- The conditions under which the gate of a connection is opened.
pub record Confirmed (cfg : GateConfig) (ctx : Actor) (connection : ℕ) (input : GateInput)
    (s s' : GateStore) : Type 0 where
  pub permitted : has_permission ctx onboard ≡ true
  pub typed : input.confirmation ≡ codes "ENABLE WRITES"
  pub backup : input.backup_confirmed ≡ true
  pub row : ConnectionRow
  pub found : find (is_connection_row ctx.tenant_id connection) s.connections ≡ some row
  pub supported : is_supported row ≡ true
  pub identity : trim input.confirmed_company_id ≡ expected_company row
  pub online :
      (not (is_qbo row && cfg.qbo_is_production) || qbo_ready cfg (expected_company row)) ≡ true
  pub desktop :
      (not (is_qbd row) || desktop_ready cfg ctx.tenant_id connection (expected_company row) row)
      ≡ true
  pub after : ConnectionRow
  pub stored : find (is_connection_row ctx.tenant_id connection) s'.connections ≡ some after
  pub open_gate : owner_gate_enabled after (expected_company row) ≡ true

gate_row-Confirmed :
    (cfg : GateConfig) (now : ℕ) (label : String) (ctx : Actor) (connection : ℕ) (input : GateInput)
    (s : GateStore) {s' : GateStore} (row : ConnectionRow)
    → has_permission ctx onboard ≡ true
    → input.confirmation ≡ codes "ENABLE WRITES"
    → input.backup_confirmed ≡ true
    → find (is_connection_row ctx.tenant_id connection) s.connections ≡ some row
    → input.wants ≡ true
    → gate_row cfg now label ctx connection input (trim input.confirmed_company_id) s row ≡ ok s'
    → Confirmed cfg ctx connection input s s'
unfolding gate_row owner_gate_enabled
gate_row-Confirmed cfg now label ctx connection input s row permitted typed backup found wants e =
    let company = trim input.confirmed_company_id in
    let test = is_connection_row ctx.tenant_id connection in
    let gate = gate_of input.wants company ctx.user_id now in
    let (supported, e1) = guard->>= (is_supported row) unsupported_connection _ e in
    let (matches, e2) =
      guard->>= (not (input.wants && not (text_eq company (expected_company row)))) company_mismatch
        _ e1 in
    let (online, e3) =
      guard->>=
        (not (input.wants && is_qbo row && cfg.qbo_is_production && not (qbo_ready cfg company)))
        qbo_master_switch _ e2 in
    let (desktop, e4) =
      guard->>=
        (not (
          input.wants
          && is_qbd row
          && not (desktop_ready cfg ctx.tenant_id connection company row)))
        desktop_binding _ e3 in
    let same : company ≡ expected_company row =
      text_eq_sound company (expected_company row) (ground (arith, matches, wants)) in
    record {
      permitted = permitted;
      typed = typed;
      backup = backup;
      row = row;
      found = found;
      supported = supported;
      identity = same;
      online =
          subst (λ c. (not (is_qbo row && cfg.qbo_is_production) || qbo_ready cfg c) ≡ true) same
            (ground (arith, online, wants));
      desktop =
          subst (λ c. (not (is_qbd row) || desktop_ready cfg ctx.tenant_id connection c row) ≡ true)
            same (ground (arith, desktop, wants));
      after = set_gate gate row;
      stored =
          subst (λ (t : GateStore). find test t.connections ≡ some (set_gate gate row))
            (ok_injective e4) (find-change_if test (set_gate gate) s.connections (λ y. refl) found);
      open_gate = rw wants (
          subst (λ c. text_eq c (expected_company row) ≡ true) (sym same)
            (text_eq_refl (expected_company row)));
    }

-- Where `setOwnerWriteGate` enables the gate, the actor may onboard, has typed the words and confirmed
-- the backup; the connection is the tenant's, active and of QuickBooks; the confirmed company is the
-- connection's; production QuickBooks Online has its switch and realm set, and QuickBooks Desktop its
-- switches, its binding and the observed company. Then, and for that company, the gate is open.
pub enable-Confirmed :
    (cfg : GateConfig) (now : ℕ) (label : String) (ctx : Actor) (connection : ℕ) (input : GateInput)
    (s s' : GateStore)
    → input.wants ≡ true
    → set_owner_write_gate cfg now label ctx connection input s ≡ ok s'
    → Confirmed cfg ctx connection input s s'
unfolding set_owner_write_gate
enable-Confirmed cfg now label ctx connection input s s' wants e =
    let company = trim input.confirmed_company_id in
    let words = codes "ENABLE WRITES" in
    let (permitted, e1) = guard->>= (has_permission ctx onboard) forbidden _ e in
    let (_, e2) = guard->>= (is_valid_id connection) invalid_id _ e1 in
    let (typed, e3) =
      guard->>= (not (not (text_eq input.confirmation words) && input.wants)) not_confirmed _ e2 in
    let (backed, e4) =
      guard->>= (not (input.wants && (is_empty company || not input.backup_confirmed)))
        identity_and_backup_required _ e3 in
    let (row, found, e5) =
      >>=-ok
        (present (find (is_connection_row ctx.tenant_id connection) s.connections)
          connection_not_found)
        _ e4 in
    gate_row-Confirmed cfg now label ctx connection input s row permitted
      (text_eq_sound input.confirmation words (ground (arith, typed, wants)))
      (ground (arith, backed, wants)) (present-ok _ connection_not_found found) wants e5
