-- ===== src/Ipc/Context.antt =====
-- desktop/ipc/context.ts: the held session and the keys that would name an identity.
use ap_hub.Prelude.{
  ◌&&◌, ◌||◌, Bool, Option, none, some, List, [], ◌∷◌, ◌++◌, map, any, leb, if◌then◌else◌,
}
use ap_hub.Text.{Text, codes, text_eq, is_empty}
use ap_hub.Access.Cookie.{sign_session_value, cookie_name}
use ap_hub.Ipc.Envelope.{Platform, Fields}

-- A payload: missing or null, an object, or anything else.
pub data Raw (V : Type 0) : Type 0 where
  absent : Raw V
  object : Fields V → Raw V
  other : V → Raw V

unfoldable pub set_session_token : Option Text → Option Text
set_session_token none = none
set_session_token (some raw) = if is_empty raw then none else some raw

-- The HMAC is missing where no secret is configured: the signing throws, which is `none`.
unfoldable pub current_session_cookie : Option (Text → Text) → Option Text → Option (Option Text)
unfolding sign_session_value
current_session_cookie sign none = some none
current_session_cookie none (some token) = none
current_session_cookie (some sign) (some token) =
    some (some (cookie_name ++ b'=' ∷ sign_session_value sign token))

abbrev pub identity_fields : List Text
identity_fields =
    codes "token"
    ∷ codes "sessiontoken"
    ∷ codes "accesstoken"
    ∷ codes "refreshtoken"
    ∷ codes "bearer"
    ∷ codes "session"
    ∷ codes "sessionid"
    ∷ codes "userid"
    ∷ codes "user"
    ∷ codes "tenantid"
    ∷ codes "tenant"
    ∷ codes "role"
    ∷ codes "actor"
    ∷ codes "email"
    ∷ codes "cookie"
    ∷ codes "authorization"
    ∷ codes "credential"
    ∷ codes "password"
    ∷ codes "secret"
    ∷ []

abbrev pub contains : Text → List Text → Bool
contains text texts = any (text_eq text) texts

unfoldable pub keep : (Text → Bool) → List Text → List Text
keep p [] = []
keep p (text ∷ texts) = let rest = keep p texts in if p text then text ∷ rest else rest

-- `key.toLowerCase().replace(/[^a-z0-9]/g, '')`
unfoldable pub canonical_text : Text → Text
canonical_text [] = []
canonical_text (c ∷ s) =
    let rest = canonical_text s in
    if (leb 97 c && leb c 122) || (leb 48 c && leb c 57) then c ∷ rest else rest

module _ {V : Type 0} (platform : Platform V) where
  abbrev pub is_identity : Text → Bool
  is_identity key = contains (canonical_text (platform.to_lower key)) identity_fields

  unfoldable pub identity_fields_in : Raw V → List Text
  unfolding text_eq keep canonical_text
  identity_fields_in absent = []
  identity_fields_in (other value) = []
  identity_fields_in (object fields) = keep is_identity (map (λ field. field.0) fields)
