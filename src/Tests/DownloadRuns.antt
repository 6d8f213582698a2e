-- ===== src/Tests/DownloadRuns.antt =====
-- A thread that downloads a file of three bytes alone, from a server that has sent its reply.
use cs_network_proj.Base.{◌≡◌, refl, none, some, [], ◌∷◌, ◌++◌, replicate, codes}
use cs_network_proj.Base.Outcome.{Ensures}
use cs_network_proj.Util.Rio.{rio_writen}
use cs_network_proj.Util.ByteBuffer.{write_uint, concat}
use cs_network_proj.Util.ByteBuffer.Memory.{store_ulong}
use cs_network_proj.Protocol.{packet}
use cs_network_proj.Client.DownloadManager.{whole_part}
use cs_network_proj.Client.DownloadManager.Alone.{Task, Downloader, run_thread}
use cs_network_proj.Tests.Machine.{Machine, start}
use cs_network_proj.Tests.BlockingMachine.{waiting}

abbrev task : Task
task = record {
  src_path = codes "a.txt";
  dest_path = codes "b.txt";
  part_file = none;
  srv_address = codes "127.0.0.1";
  srv_port = 8000;
}

abbrev fresh : Downloader
fresh = record {
  parts = whole_part 0 0 3 ∷ [];
  taken = 0 ∷ [];
  total_progress = 0;
  conn_socket = none;
  read_buffer = [];
  start_part = 0;
}

abbrev answered : Machine
answered = start (packet 1 (store_ulong 3) ++ codes "xyz")

-- The part is finished and free, and the bytes are in the file.
downloaded :
    Ensures
      (λ d w.
        (d.parts ≡ record { id = 0; offset = 0; rest = 0; size = 3 } ∷ [])
        × (d.taken ≡ 0 ∷ [])
        × (d.total_progress ≡ 3)
        × (w.outgoing 5 ≡ codes "xyz"))
      (run_thread waiting task 2 9 (some (replicate 32 0)) fresh answered)
unfolding run_thread rio_writen packet write_uint concat store_ulong
downloaded = (refl, refl, refl, refl)
