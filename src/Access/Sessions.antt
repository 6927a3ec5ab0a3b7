-- ===== src/Access/Sessions.antt =====
-- src/auth/session.ts and `requireSession` of src/auth/guard.ts: the sessions in the database, found
-- by the digest of their token. The digest, the clock and the random token are parameters.
use ap_hub.Prelude.{
  ℕ, suc, Bool, true, false, not, String, str_eq, Option, none, some, List, [], ◌∷◌, ◌++◌, any,
  find, map, leb, ◌==◌, Result, ok, err, ◌>>=◌, guard, present, change_if, ◌+◌,
}
use ap_hub.Text.{Text, text_eq, is_empty}

pub record User : Type 0 where
  pub id : ℕ
  pub tenant_id : ℕ
  pub email : Text
  pub name : Text
  pub role : String
  pub status : String
  pub google_sub : Option Text

pub record SessionRow : Type 0 where
  pub id : ℕ
  pub user_id : ℕ
  pub token_hash : Text
  pub expires_at : ℕ
  pub revoked : Bool

pub record Accounts : Type 0 where
  pub users : List User
  pub next_user : ℕ
  pub next_tenant : ℕ
  pub sessions : List SessionRow
  pub next_session : ℕ

pub record ResolvedSession : Type 0 where
  pub session_id : ℕ
  pub user_id : ℕ
  pub tenant_id : ℕ
  pub role : String
  pub email : Text
  pub status : String

pub data SessionReason : Type 0 where
  not_found expired revoked user_disabled : SessionReason

pub data AuthErrorCode : Type 0 where
  unauthenticated session_expired forbidden : AuthErrorCode

-- `createSession`: the token itself goes to the caller, its digest to the table.
unfoldable pub create_session : (Text → Text) → ℕ → ℕ → Text → ℕ → Accounts → Accounts
create_session sha256 ttl now token user_id s = record s {
  sessions =
      s.sessions
      ++ record {
        id = s.next_session;
        user_id = user_id;
        token_hash = sha256 token;
        expires_at = now + ttl;
        revoked = false;
      }
        ∷ [];
  next_session = suc s.next_session;
}

abbrev pub has_hash : Text → SessionRow → Bool
has_hash hash row = text_eq row.token_hash hash

abbrev pub is_user : ℕ → User → Bool
is_user id user = user.id == id

unfoldable pub resolved_session : SessionRow → User → ResolvedSession
resolved_session row user = record {
  session_id = row.id;
  user_id = user.id;
  tenant_id = user.tenant_id;
  role = user.role;
  email = user.email;
  status = user.status;
}

-- The rows come from a join: a session without its user is no row.
unfoldable pub validate_session :
    (Text → Text) → ℕ → Text → Accounts → Result SessionReason ResolvedSession
unfolding text_eq resolved_session
validate_session sha256 now token s = do
  _ ← guard (not (is_empty token)) not_found
  row ← present (find (has_hash (sha256 token)) s.sessions) not_found
  user ← present (find (is_user row.user_id) s.users) not_found
  _ ← guard (not row.revoked) revoked
  _ ← guard (not (leb row.expires_at now)) expired
  _ ← guard (str_eq user.status "active") user_disabled
  ok (resolved_session row user)

abbrev pub reason_to_error {ℓ} : {A : Type ℓ} → Result SessionReason A → Result AuthErrorCode A
reason_to_error (ok a) = ok a
reason_to_error (err expired) = err session_expired
reason_to_error (err not_found) = err unauthenticated
reason_to_error (err revoked) = err unauthenticated
reason_to_error (err user_disabled) = err unauthenticated

-- The role of the caller must be one of the roles, where any are asked for.
abbrev pub is_allowed : Option (List String) → String → Bool
is_allowed none role = true
is_allowed (some roles) role = any (str_eq role) roles

unfoldable pub require_session :
    (Text → Text)
    → ℕ
    → Text
    → Option (List String)
    → Accounts
    → Result AuthErrorCode ResolvedSession
unfolding validate_session
require_session sha256 now token roles s = do
  _ ← guard (not (is_empty token)) unauthenticated
  session ← reason_to_error (validate_session sha256 now token s)
  _ ← guard (is_allowed roles session.role) forbidden
  ok session

abbrev pub revoke : SessionRow → SessionRow
revoke row = record row { revoked = true }

unfoldable pub revoke_session : ℕ → Accounts → Accounts
revoke_session id s = record s {
  sessions = map (change_if (λ (row : SessionRow). row.id == id) revoke) s.sessions;
}

unfoldable pub revoke_session_by_token : (Text → Text) → Text → Accounts → Accounts
unfolding text_eq
revoke_session_by_token sha256 token s = record s {
  sessions = map (change_if (has_hash (sha256 token)) revoke) s.sessions;
}
