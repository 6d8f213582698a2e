-- ===== src/Tests/EventRuns.antt =====
-- A run of the loop of a server thread: one connection, whose client asks the server to stop.
use cs_network_proj.Base.Int.{pos}
use cs_network_proj.Base.{refl, true, [], ◌∷◌, codes, replicate}
use cs_network_proj.Base.Outcome.{Holds}
use cs_network_proj.Server.Session.State.{new_session}
use cs_network_proj.Server.Events.{Receiver, server_socket, connection, receive_loop}
use cs_network_proj.Server.Events.Idle.{LeavesIdle, receive_loop-LeavesIdle}
use cs_network_proj.Tests.Machine.{Machine, machine, start}

abbrev asked_to_stop : Machine
asked_to_stop = start (0 ∷ 0 ∷ 0 ∷ 9 ∷ 0 ∷ codes "shutdown")

abbrev pub receiver : Receiver
receiver = record {
  server = record {
    epoll = record { fd = pos 4; max_events = 64 };
    active = true;
    thread_num = pos 1;
    port = 8000;
    max_listen_queue = 50;
    threads = [];
  };
  listeners =
      (9, server_socket (record { fd = 9 }))
      ∷ (3, connection (new_session (record { fd = 3 })))
      ∷ [];
  local_read_buffer = replicate 64 0;
}

receive_loop-LeavesIdle_example :
    Holds (LeavesIdle machine) (receive_loop machine 2 1 receiver asked_to_stop)
receive_loop-LeavesIdle_example =
    receive_loop-LeavesIdle machine 2 1 receiver asked_to_stop
      (tt, ((refl, (λ e. cc), (λ e. cc)), tt))
