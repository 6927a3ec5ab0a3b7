-- ===== src/Access/Tests.antt =====
-- An owner who signs in, and the states and cookies of that session. The digest keeps its text, and
-- the signature of a token is its text with a mark before it.
use ap_hub.Prelude.{◌≡◌, refl, true, false, none, some, List, [], ◌∷◌, arith, ok, err}
use ap_hub.Text.{Text, codes, is_empty, text_eq}
use ap_hub.Access.Guard.{approve, can}
use ap_hub.Access.Sessions.{
  User, SessionRow, Accounts, ResolvedSession, unauthenticated, require_session,
  revoke_session_by_token,
}
use ap_hub.Access.Live.{Live, require_session-Live, revoked_refused}
use ap_hub.Access.Cookie.{
  sign_session_value, verify_session_value, read_session_cookie, verify-sign, verify_only_signed,
}
use ap_hub.Access.States.{
  LoginState, create_sso_login_state, consume_sso_login_state, gmail, ConnectState, ConnectActor,
  create_connect_state, consume_connect_state,
}
use ap_hub.Access.Once.{StateCall, run_calls, consumed_once, Bound, consume_connect-Bound}
use ap_hub.Access.SignIn.{LocalSignInResult, email_in_use, local_sign_in, sign_in_again}

abbrev digest : Text → Text
digest text = text

abbrev sign : Text → Text
sign text = b'#' ∷ text

bookkeepers_do_not_post : can "bookkeeper" approve ≡ false
unfolding can
bookkeepers_do_not_post = refl

abbrev nobody : Accounts
nobody = record { users = []; next_user = 1; next_tenant = 1; sessions = []; next_session = 1 }

abbrev first_result : LocalSignInResult
first_result = record { user_id = 1; tenant_id = 1; role = "owner_controller"; is_first_run = true }

abbrev ann : User
ann = record {
  id = 1;
  tenant_id = 1;
  email = codes "Ann";
  name = codes "Ann";
  role = "owner_controller";
  status = "active";
  google_sub = some (codes "S-1");
}

abbrev first_session : SessionRow
first_session = record {
  id = 1;
  user_id = 1;
  token_hash = codes "t1";
  expires_at = 110;
  revoked = false;
}

abbrev somebody : Accounts
somebody = record {
  users = ann ∷ [];
  next_user = 2;
  next_tenant = 2;
  sessions = first_session ∷ [];
  next_session = 2;
}

first_sign_in :
    local_sign_in digest 100 10 (codes "t1") (codes "S-1") (codes "Ann") nobody
    ≡ ok (first_result, somebody)
unfolding local_sign_in
first_sign_in = refl

abbrev IsSame : Accounts → Type 0
IsSame s =
    local_sign_in digest 100 20 (codes "t2") (codes "S-1") (codes "Anne") somebody
    ≡ ok (record { user_id = 1; tenant_id = 1; role = "owner_controller"; is_first_run = false }, s)

sign_in_again_example : (s : Accounts) × IsSame s
unfolding ap_hub.Access.SignIn.email_taken
sign_in_again_example =
    sign_in_again digest 100 10 20 (codes "t1") (codes "t2") (codes "S-1") (codes "Ann")
      (codes "Anne") nobody somebody first_result first_sign_in

-- A bookkeeper of the tenant whose address is the owner's new display name.
abbrev invited : User
invited = record ann { id = 2; email = codes "Anne"; role = "bookkeeper"; google_sub = none }

owner_locked_out :
    local_sign_in digest 100 20
      (codes "t2")
      (codes "S-1")
      (codes "Anne")
      (record somebody { users = ann ∷ invited ∷ [] })
    ≡ err email_in_use
unfolding local_sign_in
owner_locked_out = refl

abbrev ann_session : ResolvedSession
ann_session = record {
  session_id = 1;
  user_id = 1;
  tenant_id = 1;
  role = "owner_controller";
  email = codes "Ann";
  status = "active";
}

lets_in :
    require_session digest 50 (codes "t1") (some ("owner_controller" ∷ [])) somebody
    ≡ ok ann_session
unfolding require_session
lets_in = refl

require_session-Live_example :
    Live digest 50 (codes "t1") (some ("owner_controller" ∷ [])) somebody ann_session
require_session-Live_example =
    require_session-Live digest 50 (codes "t1") (some ("owner_controller" ∷ [])) somebody
      ann_session lets_in

revoked_refused_example :
    require_session digest 50
      (codes "t1")
      none
      (revoke_session_by_token digest (codes "t1") somebody)
    ≡ err unauthenticated
revoked_refused_example = revoked_refused digest 50 (codes "t1") none somebody

accepts : verify_session_value sign (codes "t.1.#t.1") ≡ none
unfolding verify_session_value
accepts = refl

accepts_signed : verify_session_value sign (codes "t1.#t1") ≡ some (codes "t1")
unfolding verify_session_value
accepts_signed = refl

reads_cookie : read_session_cookie sign (codes "a=1; aphub_session=t1.#t1") ≡ some (codes "t1")
unfolding read_session_cookie
reads_cookie = refl

comes_back : verify_session_value sign (sign_session_value sign (codes "t1")) ≡ some (codes "t1")
comes_back = verify-sign sign (codes "t1") refl (refl, (refl, (refl, tt)))

verify_only_signed_example :
    (codes "t1.#t1" ≡ sign_session_value sign (codes "t1")) × (is_empty (codes "t1") ≡ false)
verify_only_signed_example = verify_only_signed sign (codes "t1.#t1") (codes "t1") accepts_signed

abbrev waiting_state : LoginState
waiting_state = record {
  token_hash = codes "x";
  tenant_id = 7;
  expires_at = 600_005;
  consumed_at = none;
}

minted : create_sso_login_state digest 5 5 (codes "x") 7 [] ≡ waiting_state ∷ []
unfolding create_sso_login_state
minted = refl

abbrev used_state : LoginState
used_state = record waiting_state { consumed_at = some 9 }

used : consume_sso_login_state digest 9 (codes "x") (waiting_state ∷ []) ≡ (some 7, used_state ∷ [])
unfolding consume_sso_login_state
used = refl

abbrev other_calls : List StateCall
other_calls = StateCall.create 3 3 (codes "y") 8 ∷ StateCall.consume_call 4 (codes "x") ∷ []

others : text_eq (codes "y") (codes "x") ≡ false
unfolding text_eq
others = refl

consumed_once_example :
    (consume_sso_login_state digest 20
      (codes "x")
      (run_calls digest (used_state ∷ []) other_calls)).0
    ≡ none
consumed_once_example =
    consumed_once digest 9 20 (codes "x") (waiting_state ∷ []) (used_state ∷ []) 7 other_calls used
      (others, (tt, tt)) (omega arith)

abbrev connecting : ConnectState
connecting = record {
  token_hash = codes "c";
  tenant_id = 1;
  user_id = 1;
  session_id = 1;
  provider = gmail;
  expires_at = 300_020;
  consumed_at = none;
}

begins : create_connect_state digest 20 20 (codes "c") 1 1 1 gmail [] ≡ connecting ∷ []
unfolding create_connect_state
begins = refl

abbrev ann_connecting : ConnectActor
ann_connecting = record { tenant_id = 1; user_id = 1; session_id = 1; email = codes "Ann" }

connects :
    consume_connect_state digest 30 (codes "c") gmail 1 somebody (connecting ∷ [])
    ≡ (some ann_connecting, record connecting { consumed_at = some 30 } ∷ [])
unfolding consume_connect_state
connects = refl

consume_connect-Bound_example :
    Bound
      (codes "c")
      gmail
      30
      1
      somebody
      (connecting ∷ [])
      (record connecting { consumed_at = some 30 } ∷ [])
      ann_connecting
consume_connect-Bound_example =
    consume_connect-Bound digest 30 (codes "c") gmail 1 somebody (connecting ∷ [])
      (record connecting { consumed_at = some 30 } ∷ []) ann_connecting connects
