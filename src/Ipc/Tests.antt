-- ===== src/Ipc/Tests.antt =====
-- A shell with one channel, and a call of it.
use ap_hub.Prelude.{ℕ, suc, ◌≡◌, refl, false, true, ◌⊎◌, Option, none, some, List, [], ◌∷◌, ok, err}
use ap_hub.Text.{Text, codes}
use ap_hub.Ipc.Errors.{not_found, internal, normalize_code}
use ap_hub.Ipc.Envelope.{Platform, Fields, post, SynthesisSpec, path_params_of, synthesize}
use ap_hub.Ipc.Context.{Raw, absent, object, other, identity_fields_in}
use ap_hub.Ipc.Registry.{
  strict, Schema, object_schema, wrapper, opaque_schema, RegistryEntry, ChannelContribution,
  IpcRegistry, identity_field_in_schema,
}
use ap_hub.Ipc.Dispatch.{ready, Shell, dispatch, register_product_handlers}
use ap_hub.Ipc.Reached.{Reached, dispatch-Reached, Authored}
use ap_hub.Ipc.Authored.{dispatch-Authored}
use ap_hub.Ipc.Registered.{Registered, register-Registered}

abbrev platform : Platform Text
platform = record {
  to_string = λ v. v;
  is_null = λ v. false;
  as_string = λ v. some v;
  property = λ v key. none;
  stringify = λ fields. codes "{}";
  parse_object = λ text. some ((codes "data", text) ∷ []);
  encode = λ text. some text;
  to_lower = λ text. text;
  url_path = λ text. some text;
}

abbrev spec : SynthesisSpec
spec = record {
  method = post;
  path_template = codes "/api/:id/file";
  query_params = [];
  body_keys = codes "note" ∷ [];
}

abbrev parse_fields : Raw Text → Option (Fields Text)
parse_fields absent = none
parse_fields (object fields) = some fields
parse_fields (other value) = none

abbrev channel : Text
channel = codes "aphub:bills:file"

abbrev request_schema : Schema
request_schema = wrapper (
    object_schema
      record { unknown_keys = strict; shape = (codes "id", false) ∷ (codes "note", true) ∷ [] })

-- The wrapper counts its calls.
abbrev entry : RegistryEntry Text ℕ
entry = record {
  channel = channel;
  spec = spec;
  request = request_schema;
  response = opaque_schema;
  validation_message = some (codes "Add a note.");
  safe_parse = parse_fields;
  accepts = λ data_. true;
  invoke = λ request payload w.
      (some (record { is_ok = true; status = 200; text = request.path }), suc w);
}

abbrev contributions : List (ChannelContribution Text ℕ)
contributions = record { channels = channel ∷ []; entries = entry ∷ [] } ∷ []

abbrev registry : IpcRegistry Text ℕ
registry = record { by_channel = entry ∷ []; channels = channel ∷ [] }

abbrev shell : Shell Text ℕ
shell = record {
  platform = platform;
  allowed = codes "aphub:shell:version" ∷ channel ∷ [];
  registry = registry;
  database = ready;
  sign = some (λ token. codes "mac");
  session_token = some (codes "t");
}

abbrev payload : Raw Text
payload = object ((codes "id", codes "7") ∷ [])

path_params : path_params_of spec.path_template ≡ codes "id" ∷ []
unfolding path_params_of
path_params = refl

synthesized :
    synthesize platform spec ((codes "id", codes "7") ∷ []) none
    ≡ some (record {
      method = post;
      path = codes "/api/7/file";
      query = [];
      cookie = none;
      body = some (codes "{}");
    })
unfolding synthesize
synthesized = refl

normalized : normalize_code (some (codes "BILL_NOT_FOUND")) ≡ some not_found
unfolding normalize_code
normalized = refl

unknown_code : normalize_code (some (codes "ECONNREFUSED")) ≡ some internal
unfolding normalize_code
unknown_code = refl

inherited_code : normalize_code (some (codes "constructor")) ≡ none
unfolding normalize_code
inherited_code = refl

claims_identity :
    identity_fields_in platform (object ((codes "tenant_id", codes "2") ∷ []))
    ≡ codes "tenant_id" ∷ []
unfolding identity_fields_in
claims_identity = refl

calls_wrapper : (dispatch shell channel payload 0).1 ≡ 1
unfolding dispatch
calls_wrapper = refl

claim_refused : (dispatch shell channel (object ((codes "role", codes "cpa") ∷ [])) 0).1 ≡ 0
unfolding dispatch
claim_refused = refl

-- A schema that names an identity stops the shell.
identity_refused :
    register_product_handlers platform [] [] (
      record {
        channels = channel ∷ [];
        entries =
            record entry {
              request =
                  object_schema
                    record { unknown_keys = strict; shape = (codes "user_id", false) ∷ [] };
            }
            ∷ [];
      }
      ∷ [])
    ≡ err identity_field_in_schema
unfolding register_product_handlers
identity_refused = refl

registers :
    register_product_handlers platform shell.allowed
      (codes "aphub:shell:version" ∷ [])
      contributions
    ≡ ok registry
unfolding register_product_handlers
registers = refl

dispatch-Reached_example :
    ((dispatch shell channel payload 0).1 ≡ 0) × ((dispatch shell channel payload 0).0.ok ≡ false)
    ⊎ Reached shell channel payload 0 (dispatch shell channel payload 0).1
dispatch-Reached_example = dispatch-Reached shell channel payload 0

dispatch-Authored_example : Authored shell channel (dispatch shell channel absent 0).0
dispatch-Authored_example = dispatch-Authored shell channel absent 0

register-Registered_example :
    Registered platform shell.allowed (codes "aphub:shell:version" ∷ []) registry
register-Registered_example =
    register-Registered platform shell.allowed (codes "aphub:shell:version" ∷ []) contributions
      registers
