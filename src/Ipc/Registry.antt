-- ===== src/Ipc/Registry.antt =====
-- desktop/ipc/registry.ts: the rules of a channel, and the assembly of the registry. Of a schema
-- the model has the object at its base; parsing is a parameter of the entry.
use ap_hub.Prelude.{
  ℕ, zero, suc, Bool, true, false, not, ◌&&◌, ◌||◌, Option, none, some, List, [], ◌∷◌, ◌++◌, map,
  any, find, leb, ◌==◌, Result, ok, ◌>>=◌, guard, present,
}
use ap_hub.Text.{Text, codes, text_eq, trim, is_empty, split_on, includes}
use ap_hub.Ipc.Envelope.{Platform, Fields, SynthesisSpec, Request, Response, is_get, path_params_of}
use ap_hub.Ipc.Context.{Raw, contains, keep, is_identity, canonical_text}

pub data UnknownKeys : Type 0 where
  strict strip passthrough : UnknownKeys

-- A field of an object schema with whether it is optional.
pub record ObjectShape : Type 0 where
  pub unknown_keys : UnknownKeys
  pub shape : List (Text × Bool)

-- An object, one of the wrappers that `baseObject` sees through, or another schema.
pub data Schema : Type 0 where
  object_schema : ObjectShape → Schema
  wrapper : Schema → Schema
  opaque_schema : Schema

abbrev pub is_strict : ObjectShape → Bool
is_strict object = elim object.unknown_keys [ strict ↦ true | strip ↦ false | passthrough ↦ false ]

unfoldable pub unwrap : ℕ → Schema → Option ObjectShape
unwrap zero schema = none
unwrap (suc depth) (object_schema object) = some object
unwrap (suc depth) (wrapper schema) = unwrap depth schema
unwrap (suc depth) opaque_schema = none

unfoldable pub base_object : Schema → Option ObjectShape
unfolding unwrap
base_object schema = unwrap 12 schema

-- The roles are documentation, and left out. The wrapper may throw, and changes the world `W`.
pub record RegistryEntry (V W : Type 0) : Type 0 where
  pub channel : Text
  pub spec : SynthesisSpec
  pub request : Schema
  pub response : Schema
  pub validation_message : Option Text
  pub safe_parse : Raw V → Option (Fields V)
  pub accepts : V → Bool
  pub invoke : Request → Fields V → W → Option Response × W

pub record ChannelContribution (V W : Type 0) : Type 0 where
  pub channels : List Text
  pub entries : List (RegistryEntry V W)

pub record IpcRegistry (V W : Type 0) : Type 0 where
  pub by_channel : List (RegistryEntry V W)
  pub channels : List Text

pub data RegistryDefect : Type 0 where
  malformed_channel request_schema_not_an_object request_schema_not_strict : RegistryDefect
  identity_field_in_schema path_param_not_in_schema path_param_optional : RegistryDefect
  body_on_get routed_key_not_in_schema unrouted_payload_key : RegistryDefect
  response_schema_strict validation_message_not_plain duplicate_channel : RegistryDefect
  duplicate_channel_name channel_without_entry entry_without_channel : RegistryDefect
  unregistered_channel channel_without_handler : RegistryDefect

abbrev is_lower : ℕ → Bool
is_lower c = leb 97 c && leb c 122

abbrev pub every : (Text → Bool) → List Text → Bool
every p texts = not (any (λ text. not (p text)) texts)

abbrev is_segment : Text → Bool
is_segment [] = false
is_segment (c ∷ s) =
    is_lower c && not (any (λ d. not (is_lower d || (leb 48 d && leb d 57) || (d == 45))) s)

abbrev are_segments : List Text → Bool
are_segments (name ∷ domain ∷ action ∷ []) =
    text_eq name (codes "aphub") && is_segment domain && is_segment action
are_segments parts = false

-- `/^aphub:[a-z][a-z0-9-]*:[a-z][a-z0-9-]*$/`
unfoldable pub matches_pattern : Text → Bool
unfolding split_on text_eq
matches_pattern channel = are_segments (split_on 58 channel)

abbrev pub keys_of : ObjectShape → List Text
keys_of object = map (λ field. field.0) object.shape

unfoldable pub check_params : List (Text × Bool) → List Text → Result RegistryDefect (Unit {0})
unfolding text_eq
check_params shape [] = ok tt
check_params shape (name ∷ names) = do
  field ← present (find (λ field. text_eq field.0 name) shape) path_param_not_in_schema
  _ ← guard (not field.1) path_param_optional
  check_params shape names

abbrev is_plain : Option Text → Bool
is_plain none = true
is_plain (some message) = not (
    is_empty (trim message)
    || includes (codes "aphub:") message
    || any (λ c. (c == 36) || (c == 123) || (c == 125)) message)

abbrev strict_response : Option ObjectShape → Bool
strict_response none = false
strict_response (some object) = is_strict object

abbrev pub has_entry : {V W : Type 0} → Text → List (RegistryEntry V W) → Bool
has_entry channel entries = any (λ entry. text_eq entry.channel channel) entries

unfoldable pub collect_names : List Text → List Text → Result RegistryDefect (List Text)
unfolding text_eq
collect_names seen [] = ok seen
collect_names seen (channel ∷ channels) = do
  _ ← guard (not (contains channel seen)) duplicate_channel_name
  collect_names (seen ++ channel ∷ []) channels

unfoldable pub all_entries :
    {V W : Type 0} → List (ChannelContribution V W) → List (RegistryEntry V W)
all_entries [] = []
all_entries (contribution ∷ contributions) = contribution.entries ++ all_entries contributions

unfoldable pub all_names : {V W : Type 0} → List (ChannelContribution V W) → List Text
all_names [] = []
all_names (contribution ∷ contributions) = contribution.channels ++ all_names contributions

module _ {V W : Type 0} (platform : Platform V) where
  -- The rules of the fields, for the object at the base of the request schema.
  unfoldable pub check_object : RegistryEntry V W → ObjectShape → Result RegistryDefect (Unit {0})
  unfolding base_object path_params_of check_params text_eq keep canonical_text trim includes
  check_object entry object = do
    _ ← guard (is_strict object) request_schema_not_strict
    _ ← guard (not (any (is_identity platform) (keys_of object))) identity_field_in_schema
    let path_params = path_params_of entry.spec.path_template
    _ ← check_params object.shape path_params
    _ ← guard (not (is_get entry.spec.method && any (λ key. true) entry.spec.body_keys)) body_on_get
    let routed = path_params ++ entry.spec.query_params ++ entry.spec.body_keys
    _ ← guard (every (λ key. contains key (keys_of object)) routed) routed_key_not_in_schema
    _ ← guard (every (λ key. contains key routed) (keys_of object)) unrouted_payload_key
    _ ← guard (not (strict_response (base_object entry.response))) response_schema_strict
    guard (is_plain entry.validation_message) validation_message_not_plain

  unfoldable pub define_channel : RegistryEntry V W → Result RegistryDefect (Unit {0})
  unfolding matches_pattern base_object check_object
  define_channel entry = do
    _ ← guard (matches_pattern entry.channel) malformed_channel
    object ← present (base_object entry.request) request_schema_not_an_object
    check_object entry object

  unfoldable pub collect_entries :
      List (RegistryEntry V W)
      → List (RegistryEntry V W)
      → Result RegistryDefect (List (RegistryEntry V W))
  unfolding define_channel text_eq
  collect_entries seen [] = ok seen
  collect_entries seen (entry ∷ entries) = do
    _ ← define_channel entry
    _ ← guard (not (has_entry entry.channel seen)) duplicate_channel
    collect_entries (seen ++ entry ∷ []) entries

  unfoldable pub build_registry :
      List (ChannelContribution V W) → Result RegistryDefect (IpcRegistry V W)
  unfolding collect_entries collect_names all_entries all_names text_eq
  build_registry contributions = do
    by_channel ← collect_entries [] (all_entries contributions)
    declared ← collect_names [] (all_names contributions)
    _ ← guard (every (λ channel. has_entry channel by_channel) declared) channel_without_entry
    _ ←
        guard (every (λ channel. contains channel declared) (map (λ e. e.channel) by_channel))
          entry_without_channel
    ok (record { by_channel = by_channel; channels = declared })
