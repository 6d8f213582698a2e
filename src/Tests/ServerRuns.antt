-- ===== src/Tests/ServerRuns.antt =====
-- Runs of the session and of the thread pool.
use cs_network_proj.Base.Int.{pos}
use cs_network_proj.Base.{
  ℕ, ◌+◌, ◌≤◌, ◌↔◌, ◌≡◌, refl, ◌++◌, List, [], ◌∷◌, true, false, some, replicate, arith, codes,
  c_str, if◌then◌else◌,
}
use cs_network_proj.Base.Outcome.{Ensures, Holds, done}
use cs_network_proj.Util.File.{File}
use cs_network_proj.Protocol.{packet}
use cs_network_proj.Server.ThreadPool.{Thread, kill, join_all}
use cs_network_proj.Server.ThreadPool.Signals.{
  others, has_handle, signal_all, join_codes, all_nonzero, kill-signal_all, join_all-all_nonzero,
}
use cs_network_proj.Server.Session.State.{
  writing, FileProcess, Session, State, DownloadRequestPacket, new_session, has_any,
}
use cs_network_proj.Server.Session.Replies.{validate_path}
use cs_network_proj.Server.Session.Replies.Paths.{
  Checked, IsInside, validate_path-Checked, validate_path_sibling,
}
use cs_network_proj.Server.Session.Downloads.{in_file, serve_file}
use cs_network_proj.Server.Session.Downloads.Ranges.{Served, in_file_iff, serve_file-Served}
use cs_network_proj.Server.Session.Writing.{handle_writing}
use cs_network_proj.Server.Session.Writing.Progress.{Left, HasMoved, handle_writing-Left}
use cs_network_proj.Server.Session.Handle.{handle}
use cs_network_proj.Server.Session.Handle.Invariant.{HasFile, handle-HasFile}
use cs_network_proj.Network.Socket.{Socket}
use cs_network_proj.Util.ByteBuffer.{write_uint, concat}
use cs_network_proj.Server.Session.Handle.{handle_reading}
use cs_network_proj.Server.Session.Handle.Requests.{IsDispatched, handle_reading-IsDispatched}
use cs_network_proj.Server.Startup.{init_server}
use cs_network_proj.Server.Startup.Ready.{ReadyOrExited, init_server-ReadyOrExited}
use cs_network_proj.Server.Listeners.{on_connection_event, accept_loop}
use cs_network_proj.Server.Listeners.Rearming.{IsLeft, on_connection_event-IsLeft}
use cs_network_proj.Server.Listeners.Accepting.{IsAccepted, accept_loop-IsAccepted}
use cs_network_proj.Tests.Machine.{
  machine-ReadsArrived, machine-AcceptsQueue, Machine, machine, start, machine-WritesStream,
  machine-SendsFile,
}

abbrev a_file : File
a_file = record { file = 5; path = codes "/srv/share/a" }

abbrev a_process : FileProcess
a_process = record { file = a_file; rest = 6 }

abbrev an_open_session : Session
an_open_session = record (new_session (record { fd = 4 })) { read_buffer = some (replicate 300 0) }

abbrev pub reader : State
reader = record {
  session = an_open_session;
  server = record {
    epoll = record { fd = pos 4; max_events = 64 };
    active = true;
    thread_num = pos 2;
    port = 8080;
    max_listen_queue = 16;
    threads = [];
  };
}

abbrev writer : State
writer = record {
  session = record an_open_session { status = writing; file_process = some a_process };
  server = reader.server;
}

abbrev a_request : DownloadRequestPacket
a_request = record { offset = 2; size = 6 }

abbrev pool : List Thread
pool =
    record { handle = 7; name = codes "Worker1" }
    ∷ record { handle = 8; name = codes "Worker2" }
    ∷ record { handle = 9; name = codes "Worker3" }
    ∷ []

handle_writing-Left_example :
    Ensures
      (λ s' w'.
        (n : ℕ) × Left machine machine-SendsFile writer a_process n s' w'
        × HasMoved machine machine-SendsFile 4 5 (start []) n w')
      (handle_writing machine writer (start []))
handle_writing-Left_example =
    handle_writing-Left machine machine-SendsFile writer a_process (start []) refl

serve_file-Served_example :
    Ensures
      (Served machine machine-WritesStream a_request false reader a_file (start []))
      (serve_file machine a_request false reader a_file (start []))
serve_file-Served_example =
    serve_file-Served machine machine-WritesStream a_request false reader a_file (start [])
      (omega arith)

in_file_iff_example : (in_file 2 6 9 ≡ true) ↔ (2 + 6 ≤ 9)
in_file_iff_example = in_file_iff 2 6 9 (omega arith)

handle-HasFile_example : Holds (λ s' _. HasFile s') (handle machine writer (start []))
handle-HasFile_example = handle-HasFile machine writer (start []) λ e. (a_process, refl)

validate_path-Checked_example :
    Ensures
      (Checked machine machine-WritesStream an_open_session (codes "a") (start []))
      (validate_path machine an_open_session (codes "a") (start []))
validate_path-Checked_example =
    validate_path-Checked machine machine-WritesStream an_open_session (codes "a") (start [])

-- The machine where the path leads to the directory `/srv/shared`.
abbrev beside : Machine
beside = record (start []) { resolved = codes "/srv/shared" }

validate_path_sibling_example :
    (validate_path machine an_open_session (codes "../shared") beside
      ≡ done (codes "/srv/shared") beside)
    × (¬ IsInside machine beside (codes "/srv/shared"))
unfolding has_any c_str
validate_path_sibling_example =
    validate_path_sibling machine an_open_session (codes "../shared") [] b'd' beside refl
      (omega arith) refl

kill-signal_all_example :
    kill machine pool (start [])
    ≡ done tt (
        signal_all machine (others 8 pool ++ (if has_handle 8 pool then 8 ∷ [] else [])) (start []))
kill-signal_all_example = kill-signal_all machine pool (start [])

join_all-all_nonzero_example :
    join_all machine pool (start [])
    ≡ done
        (all_nonzero (join_codes machine pool (start [])).0)
        (join_codes machine pool (start [])).1
join_all-all_nonzero_example = join_all-all_nonzero machine pool (start [])

on_connection_event-IsLeft_example :
    Holds (IsLeft machine) (on_connection_event machine (replicate 300 0) writer (start []))
on_connection_event-IsLeft_example =
    on_connection_event-IsLeft machine (replicate 300 0) writer (start []) λ e. (a_process, refl)

-- The machine where two connections wait.
abbrev called : Machine
called = record (start []) { connections = 11 ∷ 12 ∷ [] }

abbrev server_socket : Socket
server_socket = record { fd = 3 }

accept_loop-IsAccepted_example :
    Ensures
      (IsAccepted machine machine-AcceptsQueue 3 called [])
      (accept_loop machine 3 server_socket reader.server.epoll [] called)
accept_loop-IsAccepted_example =
    accept_loop-IsAccepted machine machine-AcceptsQueue 3 server_socket reader.server.epoll []
      called (omega arith)

-- The machine where a command has arrived, in one packet.
abbrev asked_to_quit : Machine
asked_to_quit = start (0 ∷ 0 ∷ 0 ∷ 5 ∷ 0 ∷ codes "quit")

handle_reading-IsDispatched_example :
    IsDispatched machine machine-ReadsArrived reader 0
      (codes "quit")
      300
      (handle_reading machine reader asked_to_quit)
unfolding packet write_uint concat
handle_reading-IsDispatched_example =
    handle_reading-IsDispatched machine machine-ReadsArrived reader 0 (codes "quit")
      (replicate 300 0) asked_to_quit refl (omega arith) (omega arith) (omega arith) refl

init_server-ReadyOrExited_example :
    ReadyOrExited reader.server (init_server machine reader.server (start []))
init_server-ReadyOrExited_example = init_server-ReadyOrExited machine reader.server (start [])
