-- ===== src/Access/SignIn.antt =====
-- src/auth/local-signin.ts: the account of the operating system is the identity. The audit rows are
-- left out.
use ap_hub.Prelude.{
  ℕ, suc, ◌≡◌, refl, ◌∙◌, ap, subst, Bool, true, false, not, ◌&&◌, String, str_eq, Option, none,
  some, [], ◌∷◌, ◌++◌, find, find-last, find-map, map, arith, Result, ok, err, ◌>>=◌, >>=-ok, guard,
  guard->>=, any, ◌==◌, if◌then◌else◌, ok_injective, change_if, change_if-keeps,
}
use ap_hub.Text.{Text, text_eq, text_eq_refl, is_empty}
use ap_hub.Access.Sessions.{User, Accounts, create_session, is_user}

pub record LocalSignInResult : Type 0 where
  pub user_id : ℕ
  pub tenant_id : ℕ
  pub role : String
  pub is_first_run : Bool

pub data SignInFault : Type 0 where
  no_account sign_in_disabled email_in_use : SignInFault

abbrev pub has_sub : Text → Option Text → Bool
has_sub account none = false
has_sub account (some sub) = text_eq sub account

abbrev pub is_owner : Text → User → Bool
is_owner account user = has_sub account user.google_sub && str_eq user.role "owner_controller"

abbrev pub find_owner : Text → Accounts → Option User
find_owner account s = find (is_owner account) s.users

unfoldable pub new_owner : Text → Text → Accounts → User
new_owner account name s = record {
  id = s.next_user;
  tenant_id = s.next_tenant;
  email = name;
  name = name;
  role = "owner_controller";
  status = "active";
  google_sub = some account;
}

unfoldable pub create_tenant_and_owner : Text → Text → Accounts → Accounts
unfolding new_owner
create_tenant_and_owner account name s = record s {
  users = s.users ++ new_owner account name s ∷ [];
  next_user = suc s.next_user;
  next_tenant = suc s.next_tenant;
}

abbrev pub rename : Text → User → User
rename name user = record user { name = name; email = name }

-- UNIQUE (tenant_id, email), for the row that gets the address.
abbrev pub clashes : Text → User → User → Bool
clashes name row other =
    not (is_user row.id other) && (other.tenant_id == row.tenant_id) && text_eq other.email name

unfoldable pub email_taken : ℕ → Text → Accounts → Bool
unfolding text_eq
email_taken id name s = any (λ row. is_user id row && any (clashes name row) s.users) s.users

-- The UPDATE sets the address to the name, and throws where another user of the tenant has it.
unfoldable pub touch_owner : ℕ → Text → Accounts → Result SignInFault Accounts
unfolding email_taken
touch_owner id name s = do
  _ ← guard (not (email_taken id name s)) email_in_use
  ok (record s { users = map (change_if (is_user id) (rename name)) s.users })

abbrev pub signed_in : User → Bool → LocalSignInResult
signed_in owner first = record {
  user_id = owner.id;
  tenant_id = owner.tenant_id;
  role = owner.role;
  is_first_run = first;
}

-- The owner that was found, or the one that is created; then a session for it.
unfoldable pub sign_in_owner :
    (Text → Text)
    → ℕ
    → ℕ
    → Text
    → Text
    → Text
    → Accounts
    → Option User
    → Result SignInFault (LocalSignInResult × Accounts)
unfolding new_owner create_tenant_and_owner touch_owner create_session
sign_in_owner sha256 ttl now token account name s none =
    let owner = new_owner account name s in
    ok (
      signed_in owner true,
      create_session sha256 ttl now token owner.id (create_tenant_and_owner account name s),
    )
sign_in_owner sha256 ttl now token account name s (some owner) = do
  _ ← guard (str_eq owner.status "active") sign_in_disabled
  touched ← touch_owner owner.id name s
  ok (signed_in owner false, create_session sha256 ttl now token owner.id touched)

unfoldable pub local_sign_in :
    (Text → Text)
    → ℕ
    → ℕ
    → Text
    → Text
    → Text
    → Accounts
    → Result SignInFault (LocalSignInResult × Accounts)
unfolding sign_in_owner text_eq
local_sign_in sha256 ttl now token account name s = do
  _ ← guard (not (is_empty account)) no_account
  sign_in_owner sha256 ttl now token account name s (find_owner account s)

-- The owner stands in the table, active, with the keys of the result.
record Settled (account : Text) (r : LocalSignInResult × Accounts) : Type 0 where
  owner : User
  found : find_owner account r.1 ≡ some owner
  active : str_eq owner.status "active" ≡ true
  user_id : owner.id ≡ r.0.user_id
  tenant_id : owner.tenant_id ≡ r.0.tenant_id
  role : owner.role ≡ r.0.role

owner-Settled :
    (sha256 : Text → Text) (ttl now : ℕ) (token account name : Text) (s : Accounts)
    (o : Option User) {r : LocalSignInResult × Accounts}
    → find_owner account s ≡ o
    → sign_in_owner sha256 ttl now token account name s o ≡ ok r
    → Settled account r
unfolding sign_in_owner new_owner create_tenant_and_owner touch_owner create_session
owner-Settled sha256 ttl now token account name s none missing e =
    let same = text_eq_refl account in
    subst (Settled account) (ok_injective e) record {
      owner = new_owner account name s;
      found =
          find-last (is_owner account) s.users (new_owner account name s) missing (ground arith);
      active = refl;
      user_id = refl;
      tenant_id = refl;
      role = refl;
    }
owner-Settled sha256 ttl now token account name s (some owner) there e =
    let (active, e1) = guard->>= (str_eq owner.status "active") sign_in_disabled _ e in
    let (touched, t, e2) = >>=-ok (touch_owner owner.id name s) _ e1 in
    let (free, t1) = guard->>= (not (email_taken owner.id name s)) email_in_use _ t in
    let change = change_if (is_user owner.id) (rename name) in
    subst (Settled account) (ok_injective e2) record {
      owner = change owner;
      found =
          subst (λ (k : Accounts). find_owner account k ≡ some (change owner)) (ok_injective t1)
            (find-map (is_owner account) change s.users owner
              (change_if-keeps (is_user owner.id) (is_owner account) (rename name) (λ y. refl))
              there);
      active = ground (arith, active);
      user_id = ground arith;
      tenant_id = ground arith;
      role = ground arith;
    }

abbrev renamed : ℕ → Text → Accounts → Accounts
renamed id name s = record s { users = map (change_if (is_user id) (rename name)) s.users }

found_again :
    (sha256 : Text → Text) (ttl now : ℕ) (token account name : Text) (s : Accounts) (owner : User)
    → not (is_empty account) ≡ true
    → find_owner account s ≡ some owner
    → str_eq owner.status "active" ≡ true
    → local_sign_in sha256 ttl now token account name s ≡ (
        if email_taken owner.id name s
        then err email_in_use
        else ok (
          signed_in owner false,
          create_session sha256 ttl now token owner.id (renamed owner.id name s),
        ))
unfolding local_sign_in sign_in_owner touch_owner
found_again sha256 ttl now token account name s owner given found active =
    rw (given, found, sign_in_owner, active)
      (by_clash (email_taken owner.id name s) (renamed owner.id name s)
        λ touched. (signed_in owner false, create_session sha256 ttl now token owner.id touched))
  where
    by_clash :
        {A : Type 0} (taken : Bool) (touched : Accounts) (f : Accounts → A)
        → (((guard (not taken) email_in_use >>= λ _. ok touched) >>= λ t. ok (f t))
            ≡ (if taken then err email_in_use else ok (f touched)))
    by_clash true touched f = refl
    by_clash false touched f = refl

same_result :
    (owner : User) (r : LocalSignInResult)
    → owner.id ≡ r.user_id
    → owner.tenant_id ≡ r.tenant_id
    → owner.role ≡ r.role
    → signed_in owner false
      ≡ record { user_id = r.user_id; tenant_id = r.tenant_id; role = r.role; is_first_run = false }
same_result owner r a b c = rw (a, b, c)

-- After a sign-in, a later one of the same account of the operating system, under whatever display
-- name, fails where another user of the owner's tenant has that name as its address, and succeeds
-- everywhere else: it finds the same user, tenant and role, and is not a first run.
pub sign_in_again :
    (sha256 : Text → Text) (ttl now later : ℕ) (token token' account name name' : Text)
    (s s' : Accounts) (r : LocalSignInResult)
    → local_sign_in sha256 ttl now token account name s ≡ ok (r, s')
    → (s'' : Accounts) × (local_sign_in sha256 ttl later token' account name' s' ≡ (
        if email_taken r.user_id name' s'
        then err email_in_use
        else ok (
          record {
            user_id = r.user_id;
            tenant_id = r.tenant_id;
            role = r.role;
            is_first_run = false;
          },
          s'',
        )))
unfolding local_sign_in
sign_in_again sha256 ttl now later token token' account name name' s s' r e =
    let (given, e1) = guard->>= (not (is_empty account)) no_account _ e in
    let k = owner-Settled sha256 ttl now token account name s (find_owner account s) refl e1 in
    let after = create_session sha256 ttl later token' k.owner.id (renamed k.owner.id name' s') in
    let step =
      found_again sha256 ttl later token' account name' s' k.owner given k.found k.active in
    (
      after,
      step
          ∙ ap
              (λ (x : LocalSignInResult).
                if email_taken k.owner.id name' s' then err email_in_use else ok (x, after))
              (same_result k.owner r k.user_id k.tenant_id k.role)
          ∙ ap
              (λ id.
                if email_taken id name' s'
                then err email_in_use
                else ok (
                  record {
                    user_id = r.user_id;
                    tenant_id = r.tenant_id;
                    role = r.role;
                    is_first_run = false;
                  },
                  after,
                ))
              k.user_id,
    )
