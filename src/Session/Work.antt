-- ===== src/Session/Work.antt =====
-- `QbwcSession`. Whether a request is a write (`isWriteRequest`, a regular expression over its text in
-- src/qbdesktop/qbxml.ts) is a parameter.
use ap_hub.Prelude.{
  ℕ, zero, suc, ◌+◌, Bool, true, false, not, ◌&&◌, String, List, [], ◌∷◌, ◌++◌, Option, none, some,
  length, get_elem?, set, all, if◌then◌else◌,
}

pub data WorkStatus : Type 0 where
  pending sent done error : WorkStatus

-- `id` is the number whose decimal text the code stores.
pub record WorkItem : Type 0 where
  pub id : ℕ
  pub label : String
  pub qbxml : String
  pub is_write : Bool
  pub status : WorkStatus
  pub response : Option String
  pub error_text : Option String

pub data QbDesktopMode : Type 0 where
  readonly write : QbDesktopMode

pub record QbwcSession : Type 0 where
  pub ticket : String
  pub mode : QbDesktopMode
  pub items : List WorkItem
  pub cursor : ℕ

abbrev pub may_write : QbDesktopMode → Bool
may_write write = true
may_write readonly = false

abbrev pub is_pending : WorkStatus → Bool
is_pending pending = true
is_pending _ = false

abbrev pub is_settled : WorkStatus → Bool
is_settled done = true
is_settled error = true
is_settled _ = false

abbrev pub new_session : String → QbDesktopMode → QbwcSession
new_session ticket mode = record { ticket = ticket; mode = mode; items = []; cursor = 0 }

abbrev pub new_item : (String → Bool) → QbwcSession → String → String → WorkItem
new_item is_write_request s label qbxml = record {
  id = length s.items + 1;
  label = label;
  qbxml = qbxml;
  is_write = is_write_request qbxml;
  status = pending;
  response = none;
  error_text = none;
}

-- None where a write is refused (WriteNotAllowedError).
unfoldable pub enqueue : (String → Bool) → String → String → QbwcSession → Option QbwcSession
enqueue is_write_request label qbxml s =
    if is_write_request qbxml && not (may_write s.mode)
    then none
    else some (record s { items = s.items ++ new_item is_write_request s label qbxml ∷ [] })

-- The loop moves the cursor at most once over each item.
unfoldable pub next_loop : ℕ → QbwcSession → QbwcSession × Option WorkItem
next_loop zero s = (s, none)
next_loop (suc fuel) s =
    let later = next_loop fuel (record s { cursor = suc s.cursor }) in
    elim (get_elem? s.items s.cursor) [
      | none ↦ (s, none)
      | some item ↦
          if is_pending item.status
          then (
            record s { items = set s.items s.cursor (record item { status = sent }) },
            some (record item { status = sent }),
          )
          else later
    ]

unfoldable pub next : QbwcSession → QbwcSession × Option WorkItem
next s = next_loop (suc (length s.items)) s

abbrev pub with_response : String → Bool → WorkItem → WorkItem
with_response response is_error item =
    if is_error
    then record item { response = some response; status = error; error_text = some response }
    else record item { response = some response; status = done }

unfoldable pub record_response : String → Bool → QbwcSession → QbwcSession
record_response response is_error s = elim (get_elem? s.items s.cursor) [
  | none ↦ s
  | some item ↦ record s {
    items = set s.items s.cursor (with_response response is_error item);
    cursor = suc s.cursor;
  }
]

abbrev pub is_done : QbwcSession → Bool
is_done s = all (λ (i : WorkItem). is_settled i.status) s.items
