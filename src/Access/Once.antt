-- ===== src/Access/Once.antt =====
-- A state of src/auth/sso-state.ts or connect-state.ts is used at most once.
use ap_hub.Prelude.{
  ℕ, ◌≤◌, ◌≡◌, refl, ◌∙◌, ap, subst, sym, Bool, true, false, not, ◌||◌, Option, none, some, List,
  [], ◌∷◌, any, find, map, select, arith, leb, ltb, ◌==◌, change_if, is_some, All, All-select,
  All-append, Bool-cases, Option-cases, inl, inr, test-find, find-mem, Memᴰ, change_if-true,
}
use ap_hub.Text.{Text, text_eq, text_eq_sound, is_empty}
use ap_hub.Access.Sessions.{User, Accounts}
use ap_hub.Access.States.{
  LoginState, is_stale, is_state, create_sso_login_state, is_consumable, consume,
  consume_sso_login_state, tenant_of, ConnectProvider, provider_eq, ConnectState, ConnectActor,
  consume_connect, is_own_session, is_own_user, is_connectable, connected_actor, actor_of,
  consume_connect_state,
}

-- Of another token, consumed, or expired by then.
abbrev is_dead : Text → ℕ → LoginState → Bool
is_dead hash now x =
    not (text_eq x.token_hash hash) || is_some x.consumed_at || leb x.expires_at now

abbrev Dead : Text → ℕ → List LoginState → Type 0
Dead hash now = All (λ x. is_dead hash now x ≡ true)

pub data StateCall : Type 0 where
  create : ℕ → ℕ → Text → ℕ → StateCall
  consume_call : ℕ → Text → StateCall

abbrev pub run_call : (Text → Text) → List LoginState → StateCall → List LoginState
run_call sha256 states (create now clock token tenant) =
    create_sso_login_state sha256 now clock token tenant states
run_call sha256 states (consume_call now token) =
    (consume_sso_login_state sha256 now token states).1

abbrev pub run_calls : (Text → Text) → List LoginState → List StateCall → List LoginState
run_calls sha256 states [] = states
run_calls sha256 states (call ∷ rest) = run_calls sha256 (run_call sha256 states call) rest

-- No call mints a token with this digest again.
abbrev pub IsOther : (Text → Text) → Text → StateCall → Type 0
IsOther sha256 hash (create now clock token tenant) = text_eq (sha256 token) hash ≡ false
IsOther sha256 hash (consume_call now token) = Unit

consumed-Dead :
    (hash : Text) (now : ℕ) (states : List LoginState)
    → Dead hash now (map (change_if (is_consumable hash now) (consume now)) states)
consumed-Dead hash now [] = tt
consumed-Dead hash now (x ∷ rest) = (
  elim (Bool-cases (is_consumable hash now x)) [
    | inl t ↦ rw t (ground arith)
    | inr f ↦ rw f (ground (arith, f))
  ],
  consumed-Dead hash now rest,
)

consume-Dead :
    (hash : Text) (now : ℕ) (test : LoginState → Bool) (time : ℕ) (states : List LoginState)
    → Dead hash now states
    → Dead hash now (map (change_if test (consume time)) states)
consume-Dead hash now test time [] h = tt
consume-Dead hash now test time (x ∷ rest) (d, h) = (
  elim (Bool-cases (test x)) [ inl t ↦ rw t (ground arith) | inr f ↦ rw f d ],
  consume-Dead hash now test time rest h,
)

call-Dead :
    (sha256 : Text → Text) (hash : Text) (now : ℕ) (call : StateCall) (states : List LoginState)
    → IsOther sha256 hash call
    → Dead hash now states
    → Dead hash now (run_call sha256 states call)
unfolding create_sso_login_state consume_sso_login_state
call-Dead sha256 hash now (create time clock token tenant) states other h =
    let cleaned =
      select (λ (x : LoginState). not (is_stale time x.expires_at x.consumed_at)) states in
    let kept =
      All-select (λ x. is_dead hash now x ≡ true)
        (λ (x : LoginState). not (is_stale time x.expires_at x.consumed_at)) states h in
    elim (Bool-cases (tenant == 0)) [
      | inl t ↦ rw t h
      | inr f ↦ elim (Bool-cases (any (is_state (sha256 token)) cleaned)) [
        | inl t ↦ rw (f, t) kept
        | inr g ↦
            rw (f, g)
              (All-append (λ x. is_dead hash now x ≡ true) cleaned _ kept
                (ground (arith, other), tt))
      ]
    ]
call-Dead sha256 hash now (consume_call time []) states other h = h
call-Dead sha256 hash now (consume_call time (c ∷ token)) states other h =
    consume-Dead hash now (is_consumable (sha256 (c ∷ token)) time) time states h

calls-Dead :
    (sha256 : Text → Text) (hash : Text) (now : ℕ) (calls : List StateCall)
    (states : List LoginState)
    → All (IsOther sha256 hash) calls
    → Dead hash now states
    → Dead hash now (run_calls sha256 states calls)
calls-Dead sha256 hash now [] states other h = h
calls-Dead sha256 hash now (call ∷ rest) states (o, other) h =
    calls-Dead sha256 hash now rest (run_call sha256 states call) other
      (call-Dead sha256 hash now call states o h)

Dead-find :
    (hash : Text) (now later : ℕ) (states : List LoginState)
    → now ≤ later
    → Dead hash now states
    → find (is_consumable hash later) states ≡ none
Dead-find hash now later [] le h = refl
Dead-find hash now later (x ∷ rest) le (d, h) =
    let no : is_consumable hash later x ≡ false = ground arith in
    rw no (Dead-find hash now later rest le h)

some_apart {ℓ} : {A B : Type ℓ} {a : A} {x y : B} → ◌≡◌ {A = Option A × B} (none, x) (some a, y) → ⊥
some_apart {A} {B} {a} e =
    let no : ◌≡◌ {A = Option A} none (some a) = ap (λ (r : Option A × B). r.0) e in absurd (cc)

consumed_states :
    (sha256 : Text → Text) (now : ℕ) (token : Text) (states states' : List LoginState) (tenant : ℕ)
    → consume_sso_login_state sha256 now token states ≡ (some tenant, states')
    → Dead (sha256 token) now states'
unfolding consume_sso_login_state
consumed_states sha256 now [] states states' tenant e = absurd (some_apart e)
consumed_states sha256 now (c ∷ token) states states' tenant e =
    subst (Dead (sha256 (c ∷ token)) now) (ap (λ (r : Option ℕ × List LoginState). r.1) e)
      (consumed-Dead (sha256 (c ∷ token)) now states)

-- Once a login state was consumed, its token resolves to no tenant at any later time, whatever calls
-- came between and whenever their clocks stood, as long as none of them minted a token with the same
-- digest.
pub consumed_once :
    (sha256 : Text → Text) (now later : ℕ) (token : Text) (states states' : List LoginState)
    (tenant : ℕ) (calls : List StateCall)
    → consume_sso_login_state sha256 now token states ≡ (some tenant, states')
    → All (IsOther sha256 (sha256 token)) calls
    → now ≤ later
    → (consume_sso_login_state sha256 later token (run_calls sha256 states' calls)).0 ≡ none
unfolding consume_sso_login_state
consumed_once sha256 now later [] states states' tenant calls e other le = refl
consumed_once sha256 now later (c ∷ token) states states' tenant calls e other le =
    let hash = sha256 (c ∷ token) in
    ap tenant_of (
      Dead-find hash now later (run_calls sha256 states' calls) le (
        calls-Dead sha256 hash now calls states' other
          (consumed_states sha256 now (c ∷ token) states states' tenant e)))

-- The session and the user that a consumed connect state is bound to.
pub record Bound (hash : Text) (provider : ConnectProvider) (now session_id : ℕ) (s : Accounts)
    (states states' : List ConnectState) (actor : ConnectActor) : Type 0 where
  pub state : ConnectState
  pub stored : Memᴰ state states
  pub minted : state.token_hash ≡ hash
  pub given : provider_eq state.provider provider ≡ true
  pub session : any (is_own_session now state) s.sessions ≡ true
  pub user : User
  pub owned : find (is_own_user state) s.users ≡ some user
  pub expected : state.session_id ≡ session_id
  pub unused : is_some state.consumed_at ≡ false
  pub fresh : ltb now state.expires_at ≡ true
  pub same : actor_of state (some user) ≡ some actor
  pub spent : Memᴰ (consume_connect now state) states'

mem-change_if :
    (test : ConnectState → Bool) (change : ConnectState → ConnectState) (states : List ConnectState)
    (state : ConnectState)
    → test state ≡ true
    → Memᴰ state states
    → Memᴰ (change state) (map (change_if test change) states)
mem-change_if test change [] state t m = elim m [ ]
mem-change_if test change (x ∷ states) state t (Memᴰ.head e) =
    Memᴰ.head (sym (change_if-true test change state t) ∙ ap (change_if test change) e)
mem-change_if test change (x ∷ states) state t (Memᴰ.tail m) =
    Memᴰ.tail (mem-change_if test change states state t m)

connected-Bound :
    (hash : Text) (provider : ConnectProvider) (session_id now : ℕ) (s : Accounts)
    (states : List ConnectState) (o : Option ConnectState) {actor : ConnectActor}
    → find (is_connectable hash provider session_id now s) states ≡ o
    → connected_actor s o ≡ some actor
    → Bound hash provider now session_id s states
        (map
          (change_if (is_connectable hash provider session_id now s) (consume_connect now))
          states)
        actor
connected-Bound hash provider session_id now s states none f e = absurd (cc)
connected-Bound hash provider session_id now s states (some state) f e =
    let test = is_connectable hash provider session_id now s in
    let t = test-find test states state f in
    let m = find-mem test states f in
    elim (Option-cases (find (is_own_user state) s.users)) [
      | inl n ↦ let no = rw (n, connected_actor) at e in absurd (cc)
      | inr (user, u) ↦ record {
        state = state;
        stored = m;
        minted = text_eq_sound state.token_hash hash (ground (arith, t));
        given = ground (arith, t);
        session = ground (arith, t);
        user = user;
        owned = u;
        expected = ground (arith, t);
        unused = ground (arith, t);
        fresh = ground (arith, t);
        same = sym (ap (actor_of state) u) ∙ e;
        spent = mem-change_if test (consume_connect now) states state t m;
      }
    ]

-- Where a connect state is consumed, it is one of the table, with the digest of the token and the
-- provider of the call. It was neither used nor expired before, and it is used afterwards. It was
-- minted for the session of the call, that session is neither revoked nor expired, its user is
-- active in the tenant, and the actor is the one that the state is bound to.
pub consume_connect-Bound :
    (sha256 : Text → Text) (now : ℕ) (token : Text) (provider : ConnectProvider) (session_id : ℕ)
    (s : Accounts) (states states' : List ConnectState) (actor : ConnectActor)
    → consume_connect_state sha256 now token provider session_id s states ≡ (some actor, states')
    → Bound (sha256 token) provider now session_id s states states' actor
unfolding consume_connect_state
consume_connect-Bound sha256 now token provider session_id s states states' actor e =
    let test = is_connectable (sha256 token) provider session_id now s in
    elim (Bool-cases (is_empty token || (session_id == 0))) [
      | inl t ↦ let no = rw (t, consume_connect_state) at e in absurd (some_apart no)
      | inr f ↦
          let found = rw (f, consume_connect_state) at e in
          subst (λ after. Bound (sha256 token) provider now session_id s states after actor)
            (ap (λ (r : Option ConnectActor × List ConnectState). r.1) found)
            (connected-Bound (sha256 token) provider session_id now s states (find test states) refl
              (ap (λ (r : Option ConnectActor × List ConnectState). r.0) found))
    ]
