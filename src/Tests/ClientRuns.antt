-- ===== src/Tests/ClientRuns.antt =====
-- Runs of the download manager.
use cs_network_proj.Base.{◌≡◌, refl, some, List, [], ◌∷◌, arith, true, drop}
use cs_network_proj.Base.{◌≢◌, ℕ, none, text_eq, codes, replicate}
use cs_network_proj.Base.Int.{pos}
use cs_network_proj.Base.Outcome.{stuck, Cmd, pure, pure-Ends, Ensures, Settles}
use cs_network_proj.Util.File.{File}
use cs_network_proj.Network.Socket.{Socket}
use cs_network_proj.Client.DownloadManager.Transfer.{Transfer, transfer_loop}
use cs_network_proj.Client.DownloadManager.Transfer.Pieces.{IsTransferred}
use cs_network_proj.Client.DownloadManager.Transfer.Accounts.{transfer_loop-IsTransferred}
use cs_network_proj.Client.DownloadManager.Resume.{Download, store_parts, resume}
use cs_network_proj.Client.DownloadManager.Resume.RoundTrip.{
  IsPartStatus, IsRestored, progress_of, resume-store_parts,
}
use cs_network_proj.Client.Commands.{Client, run_repl}
use cs_network_proj.Client.Commands.Repl.{run_repl-quits, run_repl-spins}
use cs_network_proj.Tests.Machine.{Machine, machine, machine-ReadsFile, start}
use cs_network_proj.Tests.BlockingMachine.{
  waiting, waiting-ReadsAtMost, waiting-ReadsBlocking, waiting-ReadsStream, waiting-WritesStream,
  waiting-KeepsApart,
}
use cs_network_proj.Client.DownloadManager.{PartStatus, Search, whole_part, new_parts, search}
use cs_network_proj.Client.DownloadManager.Tiling.{Tiles, new_parts-Tiles}
use cs_network_proj.Client.DownloadManager.Searches.{Finds, search-Finds}

new_parts-Tiles_example :
    (parts : List PartStatus) × (new_parts 150000000 ≡ some parts) × Tiles 0 0 parts 150000000
new_parts-Tiles_example = new_parts-Tiles 150000000 (omega arith)

-- Three parts: the first is half done and free, the second is done, the third is taken.
abbrev three_parts : List PartStatus
three_parts =
    record { id = 0; offset = 0; rest = 20; size = 40 }
    ∷ record { id = 1; offset = 40; rest = 0; size = 40 }
    ∷ whole_part 2 80 9
    ∷ []

search-Finds_example :
    (r : Search) × (search three_parts (0 ∷ 0 ∷ 1 ∷ []) 1 ≡ some r)
    × Finds (0 ∷ 0 ∷ 1 ∷ []) true 1 (drop 1 three_parts) r
search-Finds_example = search-Finds three_parts (0 ∷ 0 ∷ 1 ∷ []) 1 ((0, refl), ((1, refl), tt))

abbrev server : Socket
server = record { fd = 4 }

abbrev dest_file : File
dest_file = record { file = 5; path = codes "a" }

abbrev status_file : File
status_file = record { file = 6; path = codes "a.dlinfo" }

-- A part of which three bytes are left.
abbrev almost_done : Transfer
almost_done = record {
  part = record { id = 0; offset = 0; rest = 3; size = 40 };
  total_progress = 37;
  conn_socket = some server;
  read_buffer = replicate 64 0;
}

transfer_loop-IsTransferred_example :
    Settles
      (IsTransferred waiting waiting-ReadsStream waiting-WritesStream 4 5 almost_done
        (start (codes "xyz")))
      (transfer_loop waiting 4 dest_file (some status_file) almost_done (start (codes "xyz")))
transfer_loop-IsTransferred_example =
    transfer_loop-IsTransferred waiting waiting-ReadsAtMost waiting-ReadsStream waiting-WritesStream
      waiting-KeepsApart waiting-ReadsBlocking 4 server dest_file (some status_file) almost_done
      (start (codes "xyz")) (omega arith)
      (record { connected = refl; bounded = omega arith; room = omega arith; small = omega arith })
      (omega arith)

-- A machine whose file holds two parts.
abbrev two_parts : List PartStatus
two_parts = record { id = 0; offset = 0; rest = 20; size = 40 } ∷ whole_part 1 40 9 ∷ []

abbrev broken_off : Machine
broken_off = record (start []) { content = store_parts two_parts }

part_lem : IsPartStatus (record { id = 0; offset = 0; rest = 20; size = 40 })
part_lem = record {
  id_small = omega arith;
  offset_small = omega arith;
  size_small = omega arith;
  within = omega arith;
}

next_part_lem : IsPartStatus (whole_part 1 40 9)
next_part_lem = record {
  id_small = omega arith;
  offset_small = omega arith;
  size_small = omega arith;
  within = omega arith;
}

resume-store_parts_example :
    Ensures
      (IsRestored machine machine-ReadsFile status_file two_parts
        (progress_of two_parts)
        broken_off)
      (resume machine status_file broken_off)
unfolding progress_of
resume-store_parts_example =
    resume-store_parts machine machine-ReadsFile two_parts status_file broken_off
      (part_lem, (next_part_lem, tt)) refl (omega arith) (omega arith)

-- A client with a connection, that has not read anything.
abbrev connected : Client
connected = record {
  socket = some server;
  active = true;
  read_buffer = replicate 64 0;
  download_buffers = [];
  dest_file = none;
  src_file = [];
  srv_address = codes "127.0.0.1";
  srv_port = 8000;
  download_threads = pos 2;
}

abbrev no_threads : List ℕ → Download → Cmd Machine Download
no_threads starts d = pure d

run_repl-quits_example :
    run_repl machine 3 no_threads connected (codes "ls" ∷ codes "quit" ∷ codes "ls" ∷ []) (start [])
    ≢ stuck
unfolding text_eq
run_repl-quits_example =
    run_repl-quits machine no_threads (λ starts d. pure-Ends d) 3 connected (codes "ls" ∷ [])
      (codes "quit") (codes "ls" ∷ []) refl (omega arith) (start [])

run_repl-spins_example : run_repl machine 9 no_threads connected [] (start []) ≡ stuck
run_repl-spins_example = run_repl-spins machine no_threads 9 connected (start []) refl
