-- ===== src/Access/Live.antt =====
-- Who `requireSession` lets in, and who not any more.
use ap_hub.Prelude.{
  ℕ, ◌<◌, ◌≡◌, refl, ◌∙◌, ap, subst, sym, true, false, not, String, [], ◌∷◌, str_eq, Option, none,
  some, List, find, leb, arith, Result, ok, err, ◌>>=◌, >>=-ok, guard, guard->>=, present,
  present-ok, ok_injective, change_if, find-change_if, find-map-none, change_if-keeps, Option-cases,
  Bool-cases, inl, inr,
}
use ap_hub.Text.{Text, is_empty}
use ap_hub.Access.Sessions.{
  User, SessionRow, Accounts, ResolvedSession, SessionReason, not_found, expired, revoked,
  user_disabled, AuthErrorCode, unauthenticated, forbidden, has_hash, is_user, resolved_session,
  validate_session, reason_to_error, is_allowed, require_session, revoke, revoke_session_by_token,
}

-- The session that a token names, alive, with its active user.
pub record Live (sha256 : Text → Text) (now : ℕ) (token : Text) (roles : Option (List String))
    (s : Accounts) (session : ResolvedSession) : Type 0 where
  pub row : SessionRow
  pub user : User
  pub named : find (has_hash (sha256 token)) s.sessions ≡ some row
  pub owned : find (is_user row.user_id) s.users ≡ some user
  pub kept : row.revoked ≡ false
  pub unexpired : now < row.expires_at
  pub active : str_eq user.status "active" ≡ true
  pub allowed : is_allowed roles user.role ≡ true
  pub same : resolved_session row user ≡ session

reason_to_error-ok :
    {A : Type 0} (r : Result SessionReason A) {a : A} → reason_to_error r ≡ ok a → r ≡ ok a
reason_to_error-ok (ok a) e = cc
reason_to_error-ok (err not_found) e = cc
reason_to_error-ok (err expired) e = cc
reason_to_error-ok (err revoked) e = cc
reason_to_error-ok (err user_disabled) e = cc

-- `requireSession` returns for the token of a session that is neither revoked nor expired, whose user
-- is active and has one of the roles that are asked for, and it returns that session and that user.
pub require_session-Live :
    (sha256 : Text → Text) (now : ℕ) (token : Text) (roles : Option (List String)) (s : Accounts)
    (session : ResolvedSession)
    → require_session sha256 now token roles s ≡ ok session
    → Live sha256 now token roles s session
unfolding require_session validate_session resolved_session
require_session-Live sha256 now token roles s session e =
    let (_, e1) = guard->>= (not (is_empty token)) unauthenticated _ e in
    let (found, valid, e2) = >>=-ok (reason_to_error (validate_session sha256 now token s)) _ e1 in
    let (allowed, e3) = guard->>= (is_allowed roles found.role) forbidden _ e2 in
    let v = reason_to_error-ok _ valid in
    let (_, v1) = guard->>= (not (is_empty token)) not_found _ v in
    let (row, named, v2) =
      >>=-ok (present (find (has_hash (sha256 token)) s.sessions) not_found) _ v1 in
    let (user, owned, v3) = >>=-ok (present (find (is_user row.user_id) s.users) not_found) _ v2 in
    let (kept, v4) = guard->>= (not row.revoked) revoked _ v3 in
    let (unexpired, v5) = guard->>= (not (leb row.expires_at now)) expired _ v4 in
    let (active, v6) = guard->>= (str_eq user.status "active") user_disabled _ v5 in
    let same = ok_injective v6 in
    record {
      row = row;
      user = user;
      named = present-ok _ not_found named;
      owned = present-ok _ not_found owned;
      kept = ground (arith, kept);
      unexpired = ground (arith, unexpired);
      active = active;
      allowed = subst (λ (x : ResolvedSession). is_allowed roles x.role ≡ true) (sym same) allowed;
      same = same ∙ ok_injective e3;
    }

-- What is validated when the row and the user are found.
abbrev Refused : Result SessionReason ResolvedSession → Type 0
Refused r = reason_to_error r ≡ err unauthenticated

validate-revoked :
    (sha256 : Text → Text) (now : ℕ) (token : Text) (s : Accounts) (row : SessionRow)
    → find (has_hash (sha256 token)) s.sessions ≡ some row
    → row.revoked ≡ true
    → Refused (validate_session sha256 now token s)
unfolding validate_session
validate-revoked sha256 now token s row named r = elim (Bool-cases (is_empty token)) [
  | inl t ↦ rw t
  | inr f ↦ elim (Option-cases (find (is_user row.user_id) s.users)) [
    | inl n ↦ rw (f, named, n)
    | inr (user, u) ↦ rw (f, named, u, r)
  ]
]

validate-missing :
    (sha256 : Text → Text) (now : ℕ) (token : Text) (s : Accounts)
    → find (has_hash (sha256 token)) s.sessions ≡ none
    → Refused (validate_session sha256 now token s)
unfolding validate_session
validate-missing sha256 now token s named = elim (Bool-cases (is_empty token)) [
  | inl t ↦ rw t
  | inr f ↦ rw (f, named)
]

-- What follows the validation.
abbrev continued :
    Option (List String)
    → Result AuthErrorCode ResolvedSession
    → Result AuthErrorCode ResolvedSession
continued roles r = do session ← r; _ ← guard (is_allowed roles session.role) forbidden; ok session

require-Refused :
    (sha256 : Text → Text) (now : ℕ) (token : Text) (roles : Option (List String)) (s : Accounts)
    → Refused (validate_session sha256 now token s)
    → require_session sha256 now token roles s ≡ err unauthenticated
unfolding require_session
require-Refused sha256 now [] roles s e = refl
require-Refused sha256 now (c ∷ token) roles s e = ap (continued roles) e

-- Once the session of a token is revoked, `requireSession` refuses the token as unauthenticated, at
-- every time and whatever roles are asked for, whether or not there was such a session.
pub revoked_refused :
    (sha256 : Text → Text) (now : ℕ) (token : Text) (roles : Option (List String)) (s : Accounts)
    → require_session sha256 now token roles (revoke_session_by_token sha256 token s)
      ≡ err unauthenticated
unfolding revoke_session_by_token
revoked_refused sha256 now token roles s =
    let test = has_hash (sha256 token) in
    let s' = revoke_session_by_token sha256 token s in
    require-Refused sha256 now token roles s' (elim (Option-cases (find test s.sessions)) [
      | inl n ↦ validate-missing sha256 now token s' (
          find-map-none test (change_if test revoke) s.sessions
            (change_if-keeps test test revoke (λ y. refl)) n)
      | inr (row, e) ↦
          validate-revoked sha256 now token s' (revoke row)
            (find-change_if test revoke s.sessions (λ y. refl) e) refl
    ])
