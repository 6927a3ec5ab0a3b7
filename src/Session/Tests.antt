-- ===== src/Session/Tests.antt =====
-- A read-only connection with two requests that wait.
use ap_hub.Prelude.{◌≡◌, refl, Bool, false, String, List, [], ◌∷◌, none, some, All, str_eq, arith}
use ap_hub.Session.Work.{WorkItem, readonly, done, QbwcSession, next_loop, next, is_pending}
use ap_hub.Session.Registry.{
  create_session, Registry, Call, creates, queues, asks_next, answers, run,
}
use ap_hub.Session.Guard.{Guarded, run-Guarded}
use ap_hub.Session.Drain.{next_drained, create_session-drops}

abbrev is_add : String → Bool
is_add qbxml = str_eq qbxml "BillAddRq"

abbrev empty_registry : Registry
empty_registry = record { sessions = []; waiting_work = [] }

abbrev calls : List Call
calls =
    queues "vendors" "VendorQueryRq"
    ∷ creates "t1" readonly
    ∷ queues "bill" "BillAddRq"
    ∷ asks_next "t1"
    ∷ answers "t1" "ok" false
    ∷ []

run-Guarded_example : All (Guarded is_add) (run is_add empty_registry calls).sessions
run-Guarded_example = run-Guarded is_add calls empty_registry tt

abbrev answered : WorkItem
answered = record {
  id = 1;
  label = "vendors";
  qbxml = "VendorQueryRq";
  is_write = false;
  status = done;
  response = some "ok";
  error_text = none;
}

abbrev drained : QbwcSession
drained = record { ticket = "t1"; mode = readonly; items = answered ∷ []; cursor = 0 }

nothing_left : (next drained).1 ≡ none
unfolding next next_loop
nothing_left = refl

next_drained_example : is_pending done ≡ false
next_drained_example = next_drained drained 0 answered nothing_left (omega arith) refl

abbrev two_waiting : Registry
two_waiting = record {
  sessions = [];
  waiting_work = ("vendors", "VendorQueryRq") ∷ ("bill", "BillAddRq") ∷ [];
}

create_session-drops_example :
    create_session is_add "t1" readonly two_waiting
    ≡ (record two_waiting { waiting_work = [] }, none)
create_session-drops_example = create_session-drops is_add "t1" two_waiting refl
