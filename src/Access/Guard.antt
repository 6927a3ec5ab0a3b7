-- ===== src/Access/Guard.antt =====
-- The roles and permissions of src/auth/guard.ts, with `ensurePermission` and `assertEntityId` of
-- src/services/index.ts.
use ap_hub.Prelude.{
  ℕ, Bool, false, String, List, [], ◌∷◌, Option, none, some, str_eq, any, ◌==◌, ltb, if◌then◌else◌,
}

pub data Role : Type 0 where
  owner_controller bookkeeper cpa : Role

pub data Permission : Type 0 where
  read approve reject remap learn retry reply draft_reply onboard tax_mapping dimension_mapping :
      Permission

abbrev position : Permission → ℕ
position read = 0
position approve = 1
position reject = 2
position remap = 3
position learn = 4
position retry = 5
position reply = 6
position draft_reply = 7
position onboard = 8
position tax_mapping = 9
position dimension_mapping = 10

abbrev pub role_permissions : Role → List Permission
role_permissions owner_controller =
    read ∷ approve ∷ reject ∷ remap ∷ learn ∷ retry ∷ reply ∷ draft_reply ∷ onboard ∷ tax_mapping
    ∷ dimension_mapping ∷ []
role_permissions bookkeeper = read ∷ reject ∷ remap ∷ learn ∷ draft_reply ∷ []
role_permissions cpa = read ∷ []

abbrev pub role_of : String → Option Role
role_of value =
    if str_eq value "owner_controller"
    then some owner_controller
    else if str_eq value "bookkeeper"
    then some bookkeeper
    else if str_eq value "cpa"
    then some cpa
    else none

abbrev grants : Permission → Option Role → Bool
grants permission none = false
grants permission (some role) =
    any (λ held. position held == position permission) (role_permissions role)

unfoldable pub can : String → Permission → Bool
unfolding role_of role_permissions
can role permission = grants permission (role_of role)

-- `ActorContext`; the label is `actor ?? email ?? user:<id>`.
pub record Actor : Type 0 where
  pub user_id : ℕ
  pub tenant_id : ℕ
  pub role : String
  pub email : Option String
  pub actor : Option String

unfoldable pub has_permission : Actor → Permission → Bool
unfolding can
has_permission ctx permission = can ctx.role permission

-- The ids are whole numbers here: what is left of the test is that it is positive.
abbrev pub is_valid_id : ℕ → Bool
is_valid_id id = ltb 0 id
