-- ===== src/Tests/NetworkRuns.antt =====
-- Runs of the socket.
use cs_network_proj.Base.{◌∷◌, refl, replicate, arith, codes}
use cs_network_proj.Base.Outcome.{Ensures}
use cs_network_proj.Util.ByteBuffer.{ByteBuffer}
use cs_network_proj.Network.Socket.{Socket, read}
use cs_network_proj.Network.Socket.Reads.{IsRead, read-IsRead}
use cs_network_proj.Util.ByteBuffer.{write_uint, concat}
use cs_network_proj.Protocol.{packet, receive_response}
use cs_network_proj.Protocol.RoundTrip.{IsReceived, receive_response-packet}
use cs_network_proj.Tests.Machine.{
  machine-ReadsArrived, machine, start, machine-ReadsAtMost, machine-ReadsStream,
}

abbrev client : Socket
client = record { fd = 4 }

abbrev small_buffer : ByteBuffer
small_buffer = replicate 12 0

read-IsRead_example :
    Ensures
      (IsRead machine machine-ReadsAtMost machine-ReadsStream (codes "hello!") 4 5 12)
      (read machine client small_buffer 5 (start (codes "hello!")))
read-IsRead_example =
    read-IsRead machine machine-ReadsAtMost machine-ReadsStream client small_buffer 5
      (start (codes "hello!")) (omega arith)

receive_response-packet_example :
    Ensures
      (IsReceived machine machine-ReadsArrived 4 0 (codes "Bye!\n"))
      (receive_response machine client small_buffer (start (0 ∷ 0 ∷ 0 ∷ 6 ∷ 0 ∷ codes "Bye!\n")))
unfolding packet write_uint concat
receive_response-packet_example =
    receive_response-packet machine machine-ReadsArrived client 0 (codes "Bye!\n") small_buffer
      (start (0 ∷ 0 ∷ 0 ∷ 6 ∷ 0 ∷ codes "Bye!\n")) (omega arith) (omega arith) (omega arith) refl
