-- ===== src/Worker/Tests.antt =====
-- Runs of worker.go's calls on concrete interleavings.
use iplsgo.Prelude.{
  suc, ◌≡◌, refl, true, Option, none, some, List, [], ◌∷◌, ◌++◌, Str, bytes, is_some, arith, str_eq,
}
use iplsgo.Task.{empty_result, TaskerType, Request}
use iplsgo.Gostd.Maps.{lookup, insert, delete}
use iplsgo.Worker.{Listener, Client, State, init, listen, listen_timeout}
use iplsgo.Worker.Steps.{Event, run, break, calls, listens, idles, step, play, find_worker, call}
use iplsgo.Worker.Served.{Serves, serving}
use iplsgo.Worker.Requests.{first_request_served, request_served}
use iplsgo.Worker.Exclusion.{OneToken, play-OneToken}
use iplsgo.Worker.Delivery.{listener_never_blocks}
use iplsgo.Worker.Break.{break_idle_disables}
use iplsgo.Worker.Leaving.{stranded_for_ever}
use iplsgo.Worker.Session.{create_twice}

abbrev same : Str → Str
same s = s

abbrev request : Request
request = record {
  path = bytes "/asrolf";
  type_tasker = TaskerType.classic;
  work = record {
    session_id = bytes "USER";
    task_id = bytes "1";
    req_user_name = bytes "user";
    req_user_pass = bytes "pass";
    req_conn_str = bytes "db";
    req_param_store_proc = [];
    req_before_script = [];
    req_after_script = [];
    req_document_table = [];
    req_cgi_env = [];
    req_proc = bytes "root";
    req_params = [];
    req_files = none;
    dump_file_name = [];
  };
}

-- A call makes its worker, and the listener puts the token in.
abbrev waiting : List Event
waiting = run 0 request ∷ calls 0 ∷ calls 0 ∷ calls 0 ∷ listens 0 empty_result ∷ []

-- The call takes the token and is about to send its work.
abbrev sending : List Event
sending = waiting ++ (calls 0 ∷ calls 0 ∷ [])

abbrev reached : Option State → State
reached none = init
reached (some t) = t

after : List Event → State
unfolding play step init call lookup insert delete str_eq listen listen_timeout
after es = reached (play same es init)

play-OneToken_example : OneToken (after sending)
unfolding after
play-OneToken_example = play-OneToken same sending (after sending) refl

listener_never_blocks_example :
    is_some (step same (listens 0 empty_result) (after (sending ++ (calls 0 ∷ [])))) ≡ true
unfolding after
listener_never_blocks_example =
    listener_never_blocks same (sending ++ (calls 0 ∷ [])) (after (sending ++ (calls 0 ∷ []))) 0
      empty_result refl refl

-- A call waits, and another goroutine breaks the session.
abbrev breaking : List Event
breaking = waiting ++ (break 1 (bytes "/asrolf") (bytes "USER") ∷ calls 1 ∷ [])

break_idle_disables_example : step same (calls 0) (after (breaking ++ (calls 1 ∷ []))) ≡ none
unfolding after
break_idle_disables_example =
    break_idle_disables same 0 1 (after breaking) [] (after (breaking ++ (calls 1 ∷ []))) 0 request
      (play-OneToken same breaking (after breaking) refl) refl refl refl refl

-- The listener's idle timer fires while the call is about to send.
abbrev leaving : List Event
leaving = sending ++ (idles 0 ∷ [])

stranded_for_ever_example :
    (after (leaving ++ (listens 0 empty_result ∷ []))).clients 0 ≡ Client.sending request 0 0
unfolding after
stranded_for_ever_example =
    stranded_for_ever same 0 request 0 0 (listens 0 empty_result ∷ []) (after leaving)
      (after (leaving ++ (listens 0 empty_result ∷ []))) refl refl (omega arith) refl

-- Two calls have both found no worker.
abbrev racing : List Event
racing = run 0 request ∷ run 1 request ∷ calls 0 ∷ calls 1 ∷ []

abbrev raced : State
raced = after (racing ++ (calls 0 ∷ calls 1 ∷ []))

create_twice_example :
    (raced.clients 0 ≡ Client.checking request (after racing).next_worker)
    × (raced.clients 1 ≡ Client.checking request (suc (after racing).next_worker))
    × ((raced.workers (after racing).next_worker).listener ≡ Listener.entering)
    × (find_worker same (bytes "/asrolf") (bytes "USER") raced
        ≡ some (suc (after racing).next_worker))
unfolding after
create_twice_example =
    create_twice same 0 1 request request (after racing) raced (λ e. cc) refl refl refl refl refl

first_request_served_example :
    Serves same 0 request 0 empty_result
      (calls 0 ∷ calls 0 ∷ listens 0 empty_result ∷ serving 0 0 empty_result)
      (after (run 0 request ∷ []))
unfolding after
first_request_served_example =
    first_request_served same 0 request empty_result (after (run 0 request ∷ [])) refl refl

-- The first request has got its result, and the second one of the session begins.
abbrev again : List Event
again =
    run 0 request
    ∷ calls 0
    ∷ calls 0
    ∷ listens 0 empty_result
    ∷ (serving 0 0 empty_result ++ (run 1 request ∷ []))

request_served_example :
    Serves same 1 request 0 empty_result (calls 1 ∷ serving 1 0 empty_result) (after again)
unfolding after
request_served_example =
    request_served same 1 request empty_result 0 (after again) refl refl
      (record { signal = refl; selecting = refl; unlisted = refl })
