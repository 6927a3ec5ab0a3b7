-- ===== src/Session/Registry.antt =====
-- The process's registry of sessions by ticket, in the order of their creation, and the work that
-- waits for the next connection. A call that throws gives none.
use ap_hub.Prelude.{
  Bool, true, false, not, String, List, [], ◌∷◌, ◌++◌, map, Option, none, some, str_eq, find, any,
  select, if◌then◌else◌,
}
use ap_hub.Session.Work.{
  QbDesktopMode, QbwcSession, new_session, enqueue, next, record_response, is_done,
}

pub record Registry : Type 0 where
  pub sessions : List QbwcSession
  pub waiting_work : List (String × String)

pub data Call : Type 0 where
  creates : String → QbDesktopMode → Call
  ends : String → Call
  queues : String → String → Call
  enqueues : String → String → String → Call
  asks_next : String → Call
  answers : String → String → Bool → Call

abbrev pub has_ticket : String → QbwcSession → Bool
has_ticket ticket s = str_eq s.ticket ticket

abbrev pub update_session :
    String → (QbwcSession → QbwcSession) → List QbwcSession → List QbwcSession
update_session ticket change = map (λ s. if has_ticket ticket s then change s else s)

-- sessions.set(ticket, s): a ticket that is there keeps its place.
unfoldable pub put_session : QbwcSession → List QbwcSession → List QbwcSession
put_session new sessions =
    if any (has_ticket new.ticket) sessions
    then update_session new.ticket (λ _. new) sessions
    else sessions ++ new ∷ []

module _ (is_write_request : String → Bool) where
  unfoldable pub adopt : List (String × String) → QbwcSession → Option QbwcSession
  adopt [] s = some s
  adopt ((label, qbxml) ∷ rest) s = elim (enqueue is_write_request label qbxml s) [
    | none ↦ none
    | some t ↦ adopt rest t
  ]

  -- `pending.splice(0)` empties the waiting work before the first item is adopted.
  unfoldable pub create_session : String → QbDesktopMode → Registry → Registry × Option QbwcSession
  create_session ticket mode r =
      let emptied : Registry = record r { waiting_work = [] } in
      elim (adopt r.waiting_work (new_session ticket mode)) [
        | none ↦ (emptied, none)
        | some s ↦ (record emptied { sessions = put_session s r.sessions }, some s)
      ]

  abbrev pub end_session : String → Registry → Registry
  end_session ticket r = record r { sessions = select (λ s. not (has_ticket ticket s)) r.sessions }

  -- The flag says whether the call returned.
  unfoldable pub enqueue_for_next_run : String → String → Registry → Registry × Bool
  enqueue_for_next_run label qbxml r = elim (find (λ s. not (is_done s)) r.sessions) [
    | none ↦ (record r { waiting_work = r.waiting_work ++ (label, qbxml) ∷ [] }, true)
    | some live ↦ elim (enqueue is_write_request label qbxml live) [
      | none ↦ (r, false)
      | some t ↦ (record r { sessions = update_session live.ticket (λ _. t) r.sessions }, true)
    ]
  ]

  abbrev or_same : QbwcSession → Option QbwcSession → QbwcSession
  or_same s none = s
  or_same s (some t) = t

  -- `getSession(ticket)?.enqueue(label, qbxml)`: a session that refuses the write stays as it is.
  unfoldable pub enqueue_to : String → String → QbwcSession → QbwcSession
  enqueue_to label qbxml s = or_same s (enqueue is_write_request label qbxml s)

  unfoldable pub step : Registry → Call → Registry
  step r (creates ticket mode) = (create_session ticket mode r).0
  step r (ends ticket) = end_session ticket r
  step r (queues label qbxml) = (enqueue_for_next_run label qbxml r).0
  step r (enqueues ticket label qbxml) = record r {
    sessions = update_session ticket (enqueue_to label qbxml) r.sessions;
  }
  step r (asks_next ticket) = record r {
    sessions = update_session ticket (λ s. (next s).0) r.sessions;
  }
  step r (answers ticket response is_error) = record r {
    sessions = update_session ticket (record_response response is_error) r.sessions;
  }

  unfoldable pub run : Registry → List Call → Registry
  run r [] = r
  run r (call ∷ calls) = run (step r call) calls
