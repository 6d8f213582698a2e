-- ===== src/Client/DownloadManager/Transfer.antt =====
-- DownloadManager.cpp: `DownloadThread::downloadPart` and `updateDownloadStatus`. The print of the
-- progress and the average speed are left out.
pub mod Pieces
pub mod Accounts
use cs_network_proj.Base.{
  ℕ, zero, suc, ◌+◌, ◌-◌, ◌*◌, ◌^◌, ◌%◌, Bool, true, false, Option, none, some, List, [], ◌∷◌, ◌++◌,
  min, ◌==◌, if◌then◌else◌, u64,
}
use cs_network_proj.Base.Int.{ℤ, pos, negsuc}
use cs_network_proj.Base.Outcome.{aborted, done, exited, stuck, Cmd, pure, deref, ◌>>=◌, ◌>>◌}
use cs_network_proj.Os.{Os, WriteResult, wrote, write_failed}
use cs_network_proj.Util.ByteBuffer.{ByteBuffer, size, concat}
use cs_network_proj.Util.ByteBuffer.Memory.{load_ulong, store_ulong, store_uint}
use cs_network_proj.Util.File.{File, seek, write_file}
use cs_network_proj.Network.Socket.{Socket, read}
use cs_network_proj.Protocol.{ResponsePacket, download, send_request, receive_response}
use cs_network_proj.Client.DownloadManager.{PartStatus}

-- What a thread changes while it downloads a part: the part, its share of the progress of all
-- threads, its connection and its buffer.
pub record Transfer : Type 0 where
  pub part : PartStatus
  pub total_progress : ℕ
  pub conn_socket : Option Socket
  pub read_buffer : ByteBuffer

-- sizeof(PartStatus)
abbrev pub status_size : ℕ
status_size = 32

-- A part in memory. Nothing reads the four bytes behind its number.
unfoldable pub store_part : PartStatus → ByteBuffer
unfolding store_uint store_ulong
store_part p =
    store_uint p.id
    ++ (store_uint 0 ++ (store_ulong p.offset ++ (store_ulong p.rest ++ store_ulong p.size)))

abbrev pub close_connection : Transfer → ByteBuffer → Transfer
close_connection t buffer = record t { conn_socket = none; read_buffer = buffer }

-- The part after so many bytes. The difference wraps round.
abbrev pub received : Transfer → ByteBuffer → ℕ → Transfer
received t buffer n = record t {
  part = record t.part { rest = u64 (t.part.rest + 2 ^ 64 - n) };
  total_progress = u64 (t.total_progress + n);
  read_buffer = buffer;
}

-- receive == written
abbrev pub is_count : WriteResult → ℕ → Bool
is_count (wrote m) n = m == n
is_count (write_failed e) n = false

-- Where the rest of a part starts, modulo 2 ^ 64.
abbrev pub next_offset : PartStatus → ℕ
next_offset p = u64 (p.offset + p.size + 2 ^ 64 - p.rest)

module _ (os : Os) where
  open os use {World}

  unfoldable pub update_status : Option File → PartStatus → Cmd World (Unit {0})
  unfolding seek write_file store_part
  update_status none part = pure tt
  update_status (some part_file) part = do
    seek os part_file (u64 (part.id * status_size))
    _ ← write_file os part_file (store_part part) status_size
    pure tt

  abbrev pub after_written :
      (Transfer → Cmd World Transfer)
      → Option File
      → Transfer
      → ByteBuffer
      → ℕ
      → WriteResult
      → Cmd World Transfer
  after_written next part_file t buffer n result =
      let t' = received t buffer n in
      let on : Cmd World Transfer = (do update_status part_file t'.part; next t') in
      if is_count result n then on else (λ w. exited aborted)

  abbrev pub after_receive :
      (Transfer → Cmd World Transfer)
      → File
      → Option File
      → Transfer
      → ℤ × ByteBuffer
      → Cmd World Transfer
  after_receive next dest part_file t (negsuc n, buffer) = pure (close_connection t buffer)
  after_receive next dest part_file t (pos n, buffer) = do
    result ← write_file os dest buffer n
    after_written next part_file t buffer n result

  abbrev pub transfer_round :
      (Transfer → Cmd World Transfer) → File → Option File → Transfer → Cmd World Transfer
  transfer_round next dest part_file t = do
    socket ← deref t.conn_socket
    answer ← read os socket t.read_buffer (min (size t.read_buffer) t.part.rest)
    after_receive next dest part_file t answer

  -- The loop, while something of the part is left.
  unfoldable pub transfer_loop : ℕ → File → Option File → Transfer → Cmd World Transfer
  unfolding read write_file update_status
  transfer_loop zero dest part_file t w = stuck
  transfer_loop (suc fuel) dest part_file t w =
      let result = transfer_round (transfer_loop fuel dest part_file) dest part_file t w in
      if t.part.rest == 0 then done t w else result

  abbrev pub after_header :
      ℕ
      → Option File
      → Option File
      → Transfer
      → Option ResponsePacket × ByteBuffer
      → Cmd World Transfer
  after_header fuel dest part_file t (none, buffer) = pure (close_connection t buffer)
  after_header fuel dest part_file t (some resp, buffer) = do
    n ← deref (load_ulong resp.content 0 8)
    if n == t.part.rest
        then (do
          f ← deref dest
          seek os f (next_offset t.part)
          transfer_loop fuel f part_file (record t { read_buffer = buffer }))
        else pure (close_connection t buffer)

  -- DownloadThread::downloadPart, of a thread that has a part. A connection that could not be made
  -- is a null pointer here, which is used all the same, and so is a destination that was not opened.
  unfoldable pub download_part :
      ℕ → List ℕ → Option File → Option File → Transfer → Cmd World Transfer
  unfolding send_request receive_response load_ulong store_ulong concat seek transfer_loop
  download_part fuel src_path dest part_file t =
      let request = concat (store_ulong (next_offset t.part) ++ store_ulong t.part.rest) src_path in
      do
        socket ← deref t.conn_socket
        sent ← send_request os socket download request
        if sent
            then (do
              response ← receive_response os socket t.read_buffer
              after_header fuel dest part_file t response)
            else pure t
