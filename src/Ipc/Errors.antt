-- ===== src/Ipc/Errors.antt =====
-- desktop/ipc/errors.ts: the closed set of codes that the window may see, and their sentences.
use ap_hub.Prelude.{Bool, ◌||◌, List, [], ◌∷◌, Option, none, some, find, any, if◌then◌else◌}
use ap_hub.Text.{Text, codes, text_eq, is_empty}

pub data IpcErrorCode : Type 0 where
  unauthenticated session_expired forbidden not_found validation : IpcErrorCode
  conflict already_posted qbo_retry db_starting db_failed : IpcErrorCode
  provider_offline provider_reauth connect_timeout secure_store restore_failed : IpcErrorCode
  backup_key_missing backup_failed disk_full internal : IpcErrorCode

abbrev pub ipc_error_codes : List IpcErrorCode
ipc_error_codes =
    unauthenticated ∷ session_expired ∷ forbidden ∷ not_found ∷ validation ∷ conflict
    ∷ already_posted ∷ qbo_retry ∷ db_starting ∷ db_failed ∷ provider_offline ∷ provider_reauth
    ∷ connect_timeout ∷ secure_store ∷ restore_failed ∷ backup_key_missing ∷ backup_failed
    ∷ disk_full ∷ internal ∷ []

-- The code as it is written.
unfoldable pub code_name : IpcErrorCode → Text
code_name unauthenticated = codes "UNAUTHENTICATED"
code_name session_expired = codes "SESSION_EXPIRED"
code_name forbidden = codes "FORBIDDEN"
code_name not_found = codes "NOT_FOUND"
code_name validation = codes "VALIDATION"
code_name conflict = codes "CONFLICT"
code_name already_posted = codes "ALREADY_POSTED"
code_name qbo_retry = codes "QBO_RETRY"
code_name db_starting = codes "DB_STARTING"
code_name db_failed = codes "DB_FAILED"
code_name provider_offline = codes "PROVIDER_OFFLINE"
code_name provider_reauth = codes "PROVIDER_REAUTH"
code_name connect_timeout = codes "CONNECT_TIMEOUT"
code_name secure_store = codes "SECURE_STORE"
code_name restore_failed = codes "RESTORE_FAILED"
code_name backup_key_missing = codes "BACKUP_KEY_MISSING"
code_name backup_failed = codes "BACKUP_FAILED"
code_name disk_full = codes "DISK_FULL"
code_name internal = codes "INTERNAL"

unfoldable pub ends_with : Text → Text → Bool
unfolding text_eq
ends_with suffix [] = text_eq [] suffix
ends_with suffix (c ∷ s) = text_eq (c ∷ s) suffix || ends_with suffix s

-- The codes of the services that have a destination of their own.
abbrev pub explicit : List (Text × IpcErrorCode)
explicit =
    (codes "GMAIL_RECONNECT_REQUIRED", provider_reauth)
    ∷ (codes "GMAIL_COMPOSE_SCOPE_REQUIRED", provider_reauth)
    ∷ (codes "DRAFT_RETRY", provider_offline)
    ∷ (codes "DRAFT_RESULT_UNKNOWN", provider_offline)
    ∷ (codes "UNSAFE_RETRY", conflict)
    ∷ (codes "REPLY_DRAFT_EXISTS", conflict)
    ∷ (codes "REPLY_DRAFT_ALREADY_SENT", conflict)
    ∷ (codes "REPLY_DRAFT_DISCARDED", conflict)
    ∷ (codes "REPLY_DRAFT_CONFLICT", conflict)
    ∷ (codes "INVALID_ID", validation)
    ∷ (codes "SOURCE_MESSAGE_MISSING", validation)
    ∷ (codes "DRY_RUN_LOCKED", forbidden)
    ∷ (codes "READ_BACK_FAILED", internal)
    ∷ []

-- What every object has by its prototype: `EXPLICIT[raw]` finds these too.
abbrev pub inherited : List Text
inherited =
    codes "constructor"
    ∷ codes "toString"
    ∷ codes "toLocaleString"
    ∷ codes "valueOf"
    ∷ codes "hasOwnProperty"
    ∷ codes "isPrototypeOf"
    ∷ codes "propertyIsEnumerable"
    ∷ codes "__proto__"
    ∷ codes "__defineGetter__"
    ∷ codes "__defineSetter__"
    ∷ codes "__lookupGetter__"
    ∷ codes "__lookupSetter__"
    ∷ []

abbrev or_suffix : Text → IpcErrorCode
or_suffix raw = if ends_with (codes "_NOT_FOUND") raw then not_found else internal

abbrev or_inherited : Text → Option (Text × IpcErrorCode) → Option IpcErrorCode
or_inherited raw (some (name, code)) = some code
or_inherited raw none = if any (text_eq raw) inherited then none else some (or_suffix raw)

abbrev or_explicit : Text → Option IpcErrorCode → Option IpcErrorCode
or_explicit raw (some code) = some code
or_explicit raw none = or_inherited raw (find (λ entry. text_eq entry.0 raw) explicit)

-- A code that is not a string is `none`. The result is `none` where the lookup returns what it found
-- in the prototype: no code, and no sentence is found for it.
unfoldable pub normalize_code : Option Text → Option IpcErrorCode
unfolding text_eq code_name ends_with
normalize_code none = some internal
normalize_code (some raw) =
    if is_empty raw
    then some internal
    else or_explicit raw (find (λ code. text_eq (code_name code) raw) ipc_error_codes)

unfoldable pub plain_message : IpcErrorCode → Text
plain_message unauthenticated = codes "You are signed out. Sign in to continue."
plain_message session_expired = codes "Your sign-in has timed out. Sign in again to continue."
plain_message forbidden =
    codes "Your account does not have permission to do that. Ask the account owner."
plain_message not_found = codes "BookScout OS could not find that item. It may have been removed."
plain_message validation =
    codes
      "Some required details are missing or not valid. Check the highlighted fields and try again."
plain_message conflict = codes "Someone else changed this item first. Reload it and try again."
plain_message already_posted =
    codes
      "This has already been sent to your accounting system, so BookScout OS did not send it again."
plain_message qbo_retry =
    codes
      "Your accounting system did not respond. Nothing was recorded, so you can safely try again."
plain_message db_starting =
    codes "BookScout OS is still starting up. This usually takes a few seconds — try again shortly."
plain_message db_failed =
    codes
      "BookScout OS cannot open your data right now. Restart BookScout OS, and if it happens again use Repair."
plain_message provider_offline =
    codes "BookScout OS could not reach that service. Check your internet connection and try again."
plain_message provider_reauth =
    codes
      "BookScout OS needs your permission again before it can continue. Reconnect the account in Settings."
plain_message connect_timeout = codes "That sign-in took too long. Let's try again."
plain_message secure_store =
    codes
      "BookScout OS could not read your saved sign-in details on this computer. Restart BookScout OS and try again."
plain_message restore_failed =
    codes "BookScout OS could not restore that backup. Your current data was not changed."
plain_message backup_key_missing =
    codes "BookScout OS could not find the secure key needed to read your backups on this computer."
plain_message backup_failed = codes "BookScout OS could not complete that backup."
plain_message disk_full =
    codes "BookScout OS paused because your disk is full. Free up space and try again."
plain_message internal = codes "BookScout OS could not complete that action."
