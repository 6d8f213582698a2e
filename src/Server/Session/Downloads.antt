-- ===== src/Server/Session/Downloads.antt =====
-- Session.cpp: `processDownload`.
pub mod Ranges
use cs_network_proj.Base.{
  ℕ, ◌+◌, Bool, ◌&&◌, Option, none, some, ltb, leb, ◌==◌, if◌then◌else◌, u64, codes, c_str,
}
use cs_network_proj.Base.Int.{pos}
use cs_network_proj.Base.Outcome.{Cmd, pure, deref, ◌>>=◌, ◌>>◌}
use cs_network_proj.Os.{Os}
use cs_network_proj.Util.ByteBuffer.{write_ushort, slice}
use cs_network_proj.Util.File.{File, get_size, seek}
use cs_network_proj.Protocol.{binary, download_info_reply}
use cs_network_proj.Util.ByteBuffer.Memory.{load_ulong, store_ulong}
use cs_network_proj.Server.Session.State.{
  writing, FileProcess, State, with_session, then_status, DownloadRequestPacket, request_size,
}
use cs_network_proj.Server.Session.Replies.{send_response, say, open_download_file}

-- The range fits the file; the sum wraps round.
abbrev pub in_file : ℕ → ℕ → ℕ → Bool
in_file offset n file_size =
    leb offset file_size && (leb n file_size && leb (u64 (offset + n)) file_size)

-- The number of bytes that is meant: size 0 stands for the whole file.
abbrev pub asked : DownloadRequestPacket → ℕ → ℕ
asked req file_size = if req.size == 0 then file_size else req.size

module _ (os : Os) where
  open os use {World}

  abbrev pub start_writing : File → DownloadRequestPacket → State → Cmd World State
  start_writing file req s = do
    seek os file req.offset
    let s' = then_status writing s
    let process : FileProcess = record { file = file; rest = req.size }
    pure (with_session s' (record s'.session { file_process = some process }))

  -- The header, and the turn to writing if the file itself was asked for.
  abbrev pub serve_range : DownloadRequestPacket → Bool → State → File → Cmd World State
  serve_range req info_only s file = do
    _ ←
        send_response os s.session (if info_only then download_info_reply else binary)
          (store_ulong req.size)
    if info_only then pure s else start_writing file req s

  abbrev pub refuse_range : State → Cmd World State
  refuse_range s = do say os s.session (codes "Bad file size\n"); pure s

  -- The request for an opened file.
  unfoldable pub serve_file : DownloadRequestPacket → Bool → State → File → Cmd World State
  unfolding say send_response get_size seek store_ulong
  serve_file req info_only s file = do
    file_size ← get_size os file
    let n = asked req file_size
    if in_file req.offset n file_size
        then serve_range (record req { size = n }) info_only s file
        else refuse_range s

  abbrev pub serve_opened : DownloadRequestPacket → Bool → State → Option File → Cmd World State
  serve_opened req info_only s none = pure s
  serve_opened req info_only s (some file) = serve_file req info_only s file

  -- What `processDownload` does with a request that is long enough.
  unfoldable pub read_request : ℕ → Bool → State → Cmd World State
  unfolding serve_file open_download_file load_ulong slice write_ushort c_str
  read_request read_len info_only s = do
    buffer ← deref s.read_buffer
    offset ← deref (load_ulong buffer 1 8)
    n ← deref (load_ulong buffer 9 8)
    buf_file ← deref (slice buffer (pos (1 + request_size)) (pos read_len))
    opened ← open_download_file os s.session (c_str (write_ushort buf_file 0))
    serve_opened (record { offset = offset; size = n }) info_only s opened

  unfoldable pub process_download : ℕ → Bool → State → Cmd World State
  unfolding read_request
  process_download read_len info_only s =
      if ltb read_len (1 + request_size) then pure s else read_request read_len info_only s
