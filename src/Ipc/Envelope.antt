-- ===== src/Ipc/Envelope.antt =====
-- desktop/ipc/envelope.ts: the request that a wrapper receives, and its response as an envelope.
-- The values of JavaScript and what the platform does with them are parameters.
use ap_hub.Prelude.{
  ℕ, Bool, true, false, ◌&&◌, ◌||◌, Option, none, some, List, [], ◌∷◌, ◌++◌, find, leb, ◌==◌,
  if◌then◌else◌,
}
use ap_hub.Text.{Text, codes, text_eq, trim, is_empty}
use ap_hub.Ipc.Errors.{IpcErrorCode, normalize_code, plain_message}

-- The properties of an object in their order; a property that is `undefined` is left out.
abbrev pub Fields : Type 0 → Type 0
Fields V = List (Text × V)

-- What the platform does: `String(v)`, `v === null`, a value that is a string, `v[key]`,
-- `JSON.stringify`, `JSON.parse` (none where it throws or gives no object, or an array),
-- `encodeURIComponent` and the path that `new URL` makes (none where they throw), and `toLowerCase`.
pub record Platform (V : Type 0) : Type 0 where
  pub to_string : V → Text
  pub is_null : V → Bool
  pub as_string : V → Option Text
  pub property : V → Text → Option V
  pub stringify : Fields V → Text
  pub parse_object : Text → Option (Fields V)
  pub encode : Text → Option Text
  pub to_lower : Text → Text
  pub url_path : Text → Option Text

pub data IpcMethod : Type 0 where
  get post patch delete : IpcMethod

abbrev pub is_get : IpcMethod → Bool
is_get get = true
is_get post = false
is_get patch = false
is_get delete = false

pub record IpcResult (V : Type 0) : Type 0 where
  pub ok : Bool
  pub data_ : Option V
  pub code : Option IpcErrorCode
  pub message : Option Text
  pub status : Option ℕ

pub record SynthesisSpec : Type 0 where
  pub method : IpcMethod
  pub path_template : Text
  pub query_params : List Text
  pub body_keys : List Text

pub record Request : Type 0 where
  pub method : IpcMethod
  pub path : Text
  pub query : List (Text × Text)
  pub cookie : Option Text
  pub body : Option Text

pub record Response : Type 0 where
  pub is_ok : Bool
  pub status : ℕ
  pub text : Text

abbrev pub is_letter : ℕ → Bool
is_letter c = (leb 65 c && leb c 90) || (leb 97 c && leb c 122)

abbrev pub is_alphanumeric : ℕ → Bool
is_alphanumeric c = is_letter c || (leb 48 c && leb c 57)

-- A template, read from the left: a character of it, or a `:name`.
pub data Part : Type 0 where
  literal : ℕ → Part
  param : Text → Part

abbrev opens : ℕ → Text → Bool
opens c [] = false
opens c (d ∷ s) = (c == 58) && is_letter d

abbrev next_name : Option Text → ℕ → Text → Option Text
next_name none c s = if opens c s then some [] else none
next_name (some name) c s =
    if is_alphanumeric c then some (name ++ c ∷ []) else if opens c s then some [] else none

abbrev literal_of : ℕ → Text → List Part
literal_of c s = if opens c s then [] else literal c ∷ []

abbrev emitted : Option Text → ℕ → Text → List Part
emitted none c s = literal_of c s
emitted (some name) c s = if is_alphanumeric c then [] else param name ∷ literal_of c s

-- The matches of `/:([A-Za-z][A-Za-z0-9]*)/g` and what is between them.
unfoldable pub scan_template : Option Text → Text → List Part
scan_template none [] = []
scan_template (some name) [] = param name ∷ []
scan_template name (c ∷ s) = emitted name c s ++ scan_template (next_name name c s) s

abbrev param_names : List Part → List Text
param_names [] = []
param_names (literal c ∷ parts) = param_names parts
param_names (param name ∷ parts) = name ∷ param_names parts

unfoldable pub path_params_of : Text → List Text
unfolding scan_template
path_params_of template = param_names (scan_template none template)

abbrev second : {V : Type 0} → Option (Text × V) → Option V
second none = none
second (some (key, value)) = some value

unfoldable pub field_of : {V : Type 0} → Text → Fields V → Option V
unfolding text_eq
field_of key fields = second (find (λ field. text_eq field.0 key) fields)

-- `searchParams.set` and the assignment of a property: there is at most one of a key.
unfoldable pub set_field : {A : Type 0} → Text → A → List (Text × A) → List (Text × A)
unfolding text_eq
set_field key value [] = (key, value) ∷ []
set_field key value ((k, v) ∷ fields) =
    if text_eq k key then (key, value) ∷ fields else (k, v) ∷ set_field key value fields

abbrev set_if : {A : Type 0} → Text → Option A → List (Text × A) → List (Text × A)
set_if key none fields = fields
set_if key (some value) fields = set_field key value fields

abbrev pub message_of : Option IpcErrorCode → Option Text
message_of none = none
message_of (some code) = some (plain_message code)

module _ {V : Type 0} (platform : Platform V) where
  abbrev text_of : Option V → Option Text
  text_of none = none
  text_of (some v) = if platform.is_null v then none else some (platform.to_string v)

  abbrev or_empty : Option Text → Text
  or_empty none = []
  or_empty (some text) = text

  abbrev fill_part : Fields V → Part → Option Text
  fill_part payload (literal c) = some (c ∷ [])
  fill_part payload (param name) = platform.encode (or_empty (text_of (field_of name payload)))

  abbrev append_text : Option Text → Option Text → Option Text
  append_text none rest = none
  append_text (some text) none = none
  append_text (some text) (some rest) = some (text ++ rest)

  unfoldable pub fill_path : Fields V → List Part → Option Text
  unfolding field_of
  fill_path payload [] = some []
  fill_path payload (part ∷ parts) = append_text (fill_part payload part) (fill_path payload parts)

  unfoldable pub put_params : Fields V → List Text → List (Text × Text) → List (Text × Text)
  unfolding field_of set_field
  put_params payload [] query = query
  put_params payload (key ∷ keys) query =
      put_params payload keys (set_if key (text_of (field_of key payload)) query)

  unfoldable pub body_fields : Fields V → List Text → Fields V → Fields V
  unfolding field_of set_field
  body_fields payload [] fields = fields
  body_fields payload (key ∷ keys) fields =
      body_fields payload keys (set_if key (field_of key payload) fields)

  abbrev url_of : Option Text → Option Text
  url_of none = none
  url_of (some path) = platform.url_path path

  abbrev request_at : SynthesisSpec → Fields V → Option Text → Option Text → Option Request
  request_at spec payload cookie none = none
  request_at spec payload cookie (some path) = some (record {
    method = spec.method;
    path = path;
    query = put_params payload spec.query_params [];
    cookie = cookie;
    body =
        if is_get spec.method
        then none
        else some (platform.stringify (body_fields payload spec.body_keys []));
  })

  -- None where the path cannot be made: the call throws.
  unfoldable pub synthesize : SynthesisSpec → Fields V → Option Text → Option Request
  unfolding scan_template fill_path put_params body_fields
  synthesize spec payload cookie =
      request_at spec payload cookie
        (url_of (fill_path payload (scan_template none spec.path_template)))

  abbrev fields_or_none : Option (Fields V) → Fields V
  fields_or_none none = []
  fields_or_none (some fields) = fields

  unfoldable pub parsed_body : Text → Fields V
  unfolding trim
  parsed_body text =
      if is_empty (trim text) then [] else fields_or_none (platform.parse_object text)

  -- `body.error?.code`
  abbrev raw_code : Option V → Option V
  raw_code none = none
  raw_code (some error) =
      if platform.is_null error then none else platform.property error (codes "code")

  abbrev is_blank_string : Option Text → Bool
  is_blank_string none = false
  is_blank_string (some text) = is_empty text

  abbrev code_of : Option V → Option IpcErrorCode
  code_of none = none
  code_of (some raw) =
      if platform.is_null raw || is_blank_string (platform.as_string raw)
      then none
      else normalize_code (platform.as_string raw)

  unfoldable pub decode : Response → IpcResult V
  unfolding parsed_body field_of normalize_code plain_message
  decode res =
      let body = parsed_body res.text in
      let code = code_of (raw_code (field_of (codes "error") body)) in
      record {
        ok = res.is_ok;
        data_ = field_of (codes "data") body;
        code = code;
        message = message_of code;
        status = some res.status;
      }

abbrev or_plain : IpcErrorCode → Option Text → Text
or_plain code none = plain_message code
or_plain code (some message) = message

unfoldable pub failure : {V : Type 0} → IpcErrorCode → ℕ → Option Text → IpcResult V
unfolding plain_message
failure code status message = record {
  ok = false;
  data_ = none;
  code = some code;
  message = some (or_plain code message);
  status = some status;
}
