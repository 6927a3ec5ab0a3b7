-- ===== src/Access/States.antt =====
-- src/auth/sso-state.ts and src/auth/connect-state.ts: the states of a sign-in and of a connection
-- that is being made. A state is consumed by one UPDATE, so it is one step here.
use ap_hub.Prelude.{
  ℕ, Bool, true, false, not, ◌&&◌, ◌||◌, str_eq, Option, none, some, List, [], ◌∷◌, ◌++◌, any, find,
  map, select, ltb, ◌==◌, ◌+◌, ◌*◌, if◌then◌else◌, change_if, is_some,
}
use ap_hub.Text.{Text, text_eq, is_empty}
use ap_hub.Access.Sessions.{User, SessionRow, Accounts}

pub record LoginState : Type 0 where
  pub token_hash : Text
  pub tenant_id : ℕ
  pub expires_at : ℕ
  pub consumed_at : Option ℕ

-- Milliseconds: ten minutes, and one day.
abbrev pub login_max_age : ℕ
login_max_age = 10 * 60 * 1000

abbrev pub day : ℕ
day = 24 * 60 * 60 * 1000

abbrev pub before_time : Option ℕ → ℕ → Bool
before_time none now = false
before_time (some t) now = ltb (t + day) now

abbrev pub is_stale : ℕ → ℕ → Option ℕ → Bool
is_stale now expires_at consumed_at = ltb (expires_at + day) now || before_time consumed_at now

abbrev pub is_state : Text → LoginState → Bool
is_state hash state = text_eq state.token_hash hash

-- The tenant is a whole number; `clock` is the process's time, `now` the database's. A digest that is
-- there already breaks the primary key, and then only the cleaning is done.
unfoldable pub create_sso_login_state :
    (Text → Text) → ℕ → ℕ → Text → ℕ → List LoginState → List LoginState
unfolding text_eq
create_sso_login_state sha256 now clock token tenant states =
    let cleaned =
      select (λ (x : LoginState). not (is_stale now x.expires_at x.consumed_at)) states in
    let row : LoginState = record {
      token_hash = sha256 token;
      tenant_id = tenant;
      expires_at = clock + login_max_age;
      consumed_at = none;
    } in
    if tenant == 0
    then states
    else if any (is_state (sha256 token)) cleaned
    then cleaned
    else cleaned ++ row ∷ []

abbrev pub is_consumable : Text → ℕ → LoginState → Bool
is_consumable hash now state =
    text_eq state.token_hash hash && not (is_some state.consumed_at) && ltb now state.expires_at

abbrev pub consume : ℕ → LoginState → LoginState
consume now state = record state { consumed_at = some now }

abbrev pub tenant_of : Option LoginState → Option ℕ
tenant_of none = none
tenant_of (some state) = some state.tenant_id

unfoldable pub consume_sso_login_state :
    (Text → Text) → ℕ → Text → List LoginState → Option ℕ × List LoginState
unfolding text_eq
consume_sso_login_state sha256 now token states = if is_empty token then (none, states) else (
  tenant_of (find (is_consumable (sha256 token) now) states),
  map (change_if (is_consumable (sha256 token) now) (consume now)) states,
)

pub data ConnectProvider : Type 0 where
  gmail qbo xero : ConnectProvider

abbrev pub provider_eq : ConnectProvider → ConnectProvider → Bool
provider_eq gmail gmail = true
provider_eq qbo qbo = true
provider_eq xero xero = true
provider_eq _ _ = false

pub record ConnectState : Type 0 where
  pub token_hash : Text
  pub tenant_id : ℕ
  pub user_id : ℕ
  pub session_id : ℕ
  pub provider : ConnectProvider
  pub expires_at : ℕ
  pub consumed_at : Option ℕ

pub record ConnectActor : Type 0 where
  pub tenant_id : ℕ
  pub user_id : ℕ
  pub session_id : ℕ
  pub email : Text

abbrev pub is_own_session : ℕ → ConnectState → SessionRow → Bool
is_own_session now state row =
    (row.id == state.session_id)
    && (row.user_id == state.user_id)
    && not row.revoked
    && ltb now row.expires_at

abbrev pub is_own_user : ConnectState → User → Bool
is_own_user state user =
    (user.id == state.user_id) && (user.tenant_id == state.tenant_id) && str_eq user.status "active"

-- The condition of the UPDATE: the state, and the rows that it joins.
abbrev pub is_connectable : Text → ConnectProvider → ℕ → ℕ → Accounts → ConnectState → Bool
is_connectable hash provider session_id now s state =
    text_eq state.token_hash hash
    && provider_eq state.provider provider
    && (state.session_id == session_id)
    && not (is_some state.consumed_at)
    && ltb now state.expires_at
    && any (is_own_session now state) s.sessions
    && any (is_own_user state) s.users

abbrev pub consume_connect : ℕ → ConnectState → ConnectState
consume_connect now state = record state { consumed_at = some now }

-- `RETURNING`: the keys of the state, and the user's address.
abbrev pub actor_of : ConnectState → Option User → Option ConnectActor
actor_of state none = none
actor_of state (some user) = some (record {
  tenant_id = state.tenant_id;
  user_id = state.user_id;
  session_id = state.session_id;
  email = user.email;
})

abbrev pub connected_actor : Accounts → Option ConnectState → Option ConnectActor
connected_actor s none = none
connected_actor s (some state) = actor_of state (find (is_own_user state) s.users)

unfoldable pub consume_connect_state :
    (Text → Text)
    → ℕ
    → Text
    → ConnectProvider
    → ℕ
    → Accounts
    → List ConnectState
    → Option ConnectActor × List ConnectState
unfolding text_eq
consume_connect_state sha256 now token provider session_id s states =
    let test = is_connectable (sha256 token) provider session_id now s in
    if is_empty token || (session_id == 0)
    then (none, states)
    else (connected_actor s (find test states), map (change_if test (consume_connect now)) states)

-- Five minutes.
abbrev pub connect_max_age : ℕ
connect_max_age = 5 * 60 * 1000

-- The table's check knows two of the providers.
abbrev pub is_stored_provider : ConnectProvider → Bool
is_stored_provider gmail = true
is_stored_provider qbo = true
is_stored_provider xero = false

unfoldable pub create_connect_state :
    (Text → Text)
    → ℕ
    → ℕ
    → Text
    → ℕ
    → ℕ
    → ℕ
    → ConnectProvider
    → List ConnectState
    → List ConnectState
unfolding text_eq
create_connect_state sha256 now clock token tenant user session provider states =
    let cleaned =
      select (λ (x : ConnectState). not (is_stale now x.expires_at x.consumed_at)) states in
    let row : ConnectState = record {
      token_hash = sha256 token;
      tenant_id = tenant;
      user_id = user;
      session_id = session;
      provider = provider;
      expires_at = clock + connect_max_age;
      consumed_at = none;
    } in
    if is_stored_provider provider
      && not (any (λ (x : ConnectState). text_eq x.token_hash (sha256 token)) cleaned)
    then cleaned ++ row ∷ []
    else cleaned
