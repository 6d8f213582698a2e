-- ===== src/Client/DownloadManager/Alone.antt =====
-- DownloadManager.cpp: `DownloadThread::run`, of a thread while the others do nothing.
pub mod Returns
use cs_network_proj.Base.{
  ℕ, zero, suc, ◌+◌, ◌*◌, ◌%◌, Option, none, some, List, [], length, get_elem?, codes,
}
use cs_network_proj.Base.Outcome.{done, fault, stuck, Cmd, pure, deref, ◌>>=◌}
use cs_network_proj.Os.{Os}
use cs_network_proj.Util.ByteBuffer.{ByteBuffer, allocate}
use cs_network_proj.Util.File.{File, Opening, file_of, open_path}
use cs_network_proj.Network.Socket.{Socket}
use cs_network_proj.Network.Endpoints.{connect}
use cs_network_proj.Client.DownloadManager.{
  PartStatus, Search, finished, all_taken, found, search_loop, search,
}
use cs_network_proj.Client.DownloadManager.Transfer.{Transfer, download_part}
use cs_network_proj.Client.DownloadManager.Threads.{replace}

-- What a thread sees of the manager and of the client.
pub record Task : Type 0 where
  pub src_path : List ℕ
  pub dest_path : List ℕ
  pub part_file : Option File
  pub srv_address : List ℕ
  pub srv_port : ℕ

-- What it changes: the parts and the table, the progress, its connection and buffer, and where it
-- starts to look.
pub record Downloader : Type 0 where
  pub parts : List PartStatus
  pub taken : List ℕ
  pub total_progress : ℕ
  pub conn_socket : Option Socket
  pub read_buffer : ByteBuffer
  pub start_part : ℕ

abbrev pub transfer_of : Downloader → PartStatus → Option Socket → Transfer
transfer_of d part socket = record {
  part = part;
  total_progress = d.total_progress;
  conn_socket = socket;
  read_buffer = d.read_buffer;
}

-- The part is given back, and the next search starts behind it.
abbrev pub after_part : Downloader → ℕ → PartStatus → Transfer → Downloader
after_part d i part t = record {
  parts = replace d.parts i t.part;
  taken = replace (replace d.taken part.id 1) part.id 0;
  total_progress = t.total_progress;
  conn_socket = t.conn_socket;
  read_buffer = t.read_buffer;
  start_part = (part.id + 1) % length d.parts;
}

-- The buffer is 64 * 1048576 bytes long, unless a download before this left one.
unfoldable pub own_buffer : Option ByteBuffer → ByteBuffer
unfolding allocate
own_buffer none = allocate [] (64 * 1048576)
own_buffer (some buffer) = buffer

module _ (os : Os) (task : Task) where
  open os use {World}

  -- A connection that is still there is used again.
  abbrev pub connected : Option Socket → Cmd World (Option Socket)
  connected (some socket) = pure (some socket)
  connected none = connect os task.srv_address task.srv_port

  -- A search that finds only parts that are taken goes on for ever.
  abbrev pub after_search :
      (Downloader → Cmd World Downloader)
      → ℕ
      → Option File
      → Downloader
      → Option Search
      → Cmd World Downloader
  after_search next fuel dest d none w = fault
  after_search next fuel dest d (some finished) w = done d w
  after_search next fuel dest d (some all_taken) w = stuck
  after_search next fuel dest d (some (found i)) w =
      (do
        part ← deref (get_elem? d.parts i)
        socket ← connected d.conn_socket
        t ← download_part os fuel task.src_path dest task.part_file (transfer_of d part socket)
        next (after_part d i part t))
        w

  -- The loop over the parts, in so many rounds; each download of a part gets the fuel.
  unfoldable pub parts_rounds : ℕ → ℕ → Option File → Downloader → Cmd World Downloader
  unfolding search connect download_part replace
  parts_rounds zero fuel dest d w = stuck
  parts_rounds (suc rounds) fuel dest d w =
      after_search (parts_rounds rounds fuel dest) fuel dest d (search d.parts d.taken d.start_part)
        w

  -- DownloadThread::run
  unfoldable pub run_thread : ℕ → ℕ → Option ByteBuffer → Downloader → Cmd World Downloader
  unfolding open_path own_buffer parts_rounds
  run_thread rounds fuel buffer d = do
    opening ← open_path os task.dest_path (codes "r+b")
    parts_rounds rounds fuel (file_of opening) (record d { read_buffer = own_buffer buffer })
