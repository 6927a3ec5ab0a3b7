-- ===== src/Ipc/Dispatch.antt =====
-- desktop/ipc/dispatcher.ts: `dispatch` and `registerProductHandlers`. The names that the window may
-- call (`IPC_CHANNELS`) are a parameter; the state of the world is what the wrappers change.
use ap_hub.Prelude.{
  Bool, true, false, not, ◌&&◌, ◌||◌, Option, none, some, List, [], ◌∷◌, find, option_is,
  if◌then◌else◌, Result, ok, err, ◌>>=◌, guard, present,
}
use ap_hub.Text.{Text, text_eq}
use ap_hub.Ipc.Errors.{validation, internal, db_starting, db_failed, plain_message}
use ap_hub.Ipc.Envelope.{
  Platform, Fields, IpcResult, Request, Response, synthesize, decode, failure,
}
use ap_hub.Ipc.Context.{Raw, absent, object, identity_fields_in, current_session_cookie, contains}
use ap_hub.Ipc.Registry.{
  RegistryEntry, IpcRegistry, ChannelContribution, RegistryDefect, unregistered_channel,
  channel_without_handler, has_entry, every, build_registry,
}

pub data DatabaseState : Type 0 where
  ready starting failed : DatabaseState

unfoldable pub channel_refused : {V : Type 0} → IpcResult V
unfolding plain_message
channel_refused = record {
  ok = false;
  data_ = none;
  code = some internal;
  message = some (plain_message internal);
  status = none;
}

-- `rawPayload ?? {}`
abbrev pub or_object : {V : Type 0} → Raw V → Raw V
or_object absent = object []
or_object raw = raw

abbrev pub is_nil : List Text → Bool
is_nil [] = true
is_nil (text ∷ texts) = false

abbrev pub database_open : {V : Type 0} → DatabaseState → Result (IpcResult V) (Unit {0})
database_open ready = ok tt
database_open starting = err (failure db_starting 503 none)
database_open failed = err (failure db_failed 503 none)

-- What the shell has when a channel is called.
pub record Shell (V W : Type 0) : Type 0 where
  pub platform : Platform V
  pub allowed : List Text
  pub registry : IpcRegistry V W
  pub database : DatabaseState
  pub sign : Option (Text → Text)
  pub session_token : Option Text

pub record Call (V W : Type 0) : Type 0 where
  pub entry : RegistryEntry V W
  pub request : Request
  pub payload : Fields V

module _ {V W : Type 0} (shell : Shell V W) where
  -- The steps before the wrapper is called.
  unfoldable pub prepare : Text → Raw V → Result (IpcResult V) (Call V W)
  unfolding text_eq channel_refused failure identity_fields_in current_session_cookie synthesize
  prepare channel raw = do
    _ ← guard (contains channel shell.allowed) channel_refused
    entry ←
        present (find (λ e. text_eq e.channel channel) shell.registry.by_channel) channel_refused
    _ ← database_open shell.database
    _ ← guard (is_nil (identity_fields_in shell.platform raw)) (failure validation 400 none)
    payload ←
        present (entry.safe_parse (or_object raw)) (failure validation 400 entry.validation_message)
    cookie ←
        present (current_session_cookie shell.sign shell.session_token) (failure internal 500 none)
    request ←
        present (synthesize shell.platform entry.spec payload cookie) (failure internal 500 none)
    ok (record { entry = entry; request = request; payload = payload })

  -- The envelope of an answer, whose data must have the documented shape where it is a success.
  unfoldable pub check_answer : RegistryEntry V W → Option Response → IpcResult V
  unfolding failure decode
  check_answer entry none = failure internal 500 none
  check_answer entry (some response) =
      let result = decode shell.platform response in
      if result.ok && option_is (λ data_. not (entry.accepts data_)) result.data_
      then failure internal 500 none
      else result

  unfoldable pub run_call : Result (IpcResult V) (Call V W) → W → IpcResult V × W
  unfolding check_answer
  run_call (err refusal) w = (refusal, w)
  run_call (ok call) w =
      let (answer, w') = call.entry.invoke call.request call.payload w in
      (check_answer call.entry answer, w')

  unfoldable pub dispatch : Text → Raw V → W → IpcResult V × W
  unfolding prepare check_answer run_call
  dispatch channel raw w = run_call (prepare channel raw) w

module _ {V W : Type 0} (platform : Platform V) (allowed reserved : List Text) where
  -- The registry whose channels are handled, or the defect that stops the shell.
  unfoldable pub register_product_handlers :
      List (ChannelContribution V W) → Result RegistryDefect (IpcRegistry V W)
  unfolding build_registry text_eq
  register_product_handlers contributions = do
    registry ← build_registry platform contributions
    _ ← guard (every (λ channel. contains channel allowed) registry.channels) unregistered_channel
    _ ←
        guard
          (every (λ channel. contains channel reserved || has_entry channel registry.by_channel)
            allowed)
          channel_without_handler
    ok registry
