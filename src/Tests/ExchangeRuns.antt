-- ===== src/Tests/ExchangeRuns.antt =====
-- A request for three bytes of a file, from the second on, that has come to a server.
use cs_network_proj.Base.Outcome.{done}
use cs_network_proj.Base.{ℕ, List, All, true, ◌≡◌, ◌≢◌, refl, [], false, arith, codes, replicate}
use cs_network_proj.Util.ByteBuffer.{write_uint, concat}
use cs_network_proj.Util.ByteBuffer.Memory.{store_ulong}
use cs_network_proj.Util.Rio.{rio_writen}
use cs_network_proj.Protocol.{packet, download, send_request}
use cs_network_proj.Server.Session.Handle.{handle_reading}
use cs_network_proj.Exchange.Downloads.{request_content, IsServed}
use cs_network_proj.Exchange.Requests.{send_request-IsServed}
use cs_network_proj.Tests.Machine.{
  Machine, machine, start, machine-ReadsArrived, machine-WritesStream,
}
use cs_network_proj.Tests.ServerRuns.{reader}

abbrev content : List ℕ
content = request_content 1 3 (codes "a.txt")

abbrev asked_for_a_range : Machine
asked_for_a_range = start (packet 1 content)

clean : All (λ c. c ≢ 0) (codes "a.txt")
clean = (
  (λ e. omega arith),
  ((λ e. omega arith), ((λ e. omega arith), ((λ e. omega arith), ((λ e. omega arith), tt)))),
)

-- The machine after the request went out on the descriptor 4.
sent_out :
    (w : Machine) × (send_request machine (record { fd = 4 }) download content (start [])
      ≡ done true w)
unfolding send_request rio_writen packet write_uint concat store_ulong
sent_out = (_, refl)

send_request-IsServed_example :
    IsServed machine machine-ReadsArrived reader false 1 3
      (codes "a.txt")
      300
      (handle_reading machine reader asked_for_a_range)
unfolding sent_out packet write_uint concat store_ulong
send_request-IsServed_example =
    send_request-IsServed machine machine-WritesStream machine machine-ReadsArrived
      (record { fd = 4 }) (start []) sent_out.0 reader false 1 3 (codes "a.txt") (replicate 300 0)
      asked_for_a_range sent_out.1 refl refl (omega arith) (omega arith) (omega arith) (omega arith)
      (omega arith) clean
