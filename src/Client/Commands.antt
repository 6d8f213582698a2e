-- ===== src/Client/Commands.antt =====
-- src/client/Client.h and Client.cpp: the client, how it sends a command and handles the response.
pub mod Repl
pub mod Terminates
pub mod Connects
use cs_network_proj.Base.{
  ℕ, zero, suc, ◌==◌, Bool, true, false, ◌||◌, ◌&&◌, not, if◌then◌else◌, Option, none, some, List,
  [], ◌∷◌, ◌++◌, length, replicate, codes, c_str, text_eq,
}
use cs_network_proj.Base.Int.{ℤ, pos, negsuc}
use cs_network_proj.Base.Outcome.{aborted, done, exited, stuck, Cmd, pure, deref, finished, ◌>>=◌}
use cs_network_proj.Os.{Os}
use cs_network_proj.Util.ByteBuffer.{ByteBuffer, concat, write_ushort, allocate}
use cs_network_proj.Util.ByteBuffer.Memory.{load_ulong, store_ulong}
use cs_network_proj.Util.File.{File, Opening, file_of, open_path}
use cs_network_proj.Util.StringUtil.{split}
use cs_network_proj.Network.Socket.{Socket}
use cs_network_proj.Network.Endpoints.{connect}
use cs_network_proj.Protocol.{
  ResponsePacket, command, download_info, response_byte, plain_text, binary, download_info_reply,
  send_request, receive_response,
}
use cs_network_proj.Client.DownloadManager.Resume.{Download, download_wait}

pub record Client : Type 0 where
  pub socket : Option Socket
  pub active : Bool
  pub read_buffer : ByteBuffer
  pub download_buffers : List (Option ByteBuffer)
  pub dest_file : Option File
  pub src_file : List ℕ
  pub srv_address : List ℕ
  pub srv_port : ℕ
  pub download_threads : ℤ

-- 1 * 1048576
abbrev pub client_recv_size : ℕ
client_recv_size = 1048576

-- A loop that counts up from 0.
abbrev pub buffers_of : ℤ → List (Option ByteBuffer)
buffers_of (pos n) = replicate n none
buffers_of (negsuc n) = []

-- Client::init and DownloadManager::init: a buffer of zeros, and one empty buffer for each thread.
unfoldable pub init : Client → Client
unfolding allocate
init client = record client {
  read_buffer = allocate client.read_buffer client_recv_size;
  download_buffers = client.download_buffers ++ buffers_of client.download_threads;
}

abbrev pub is_download : List ℕ → Bool
is_download word = text_eq word (codes "download") || text_eq word (codes "dl")

abbrev pub is_quit : List ℕ → Bool
is_quit text =
    text_eq text (codes "quit") || text_eq text (codes "q") || text_eq text (codes "shutdown")

-- The words of the command line, with a space between two.
unfoldable pub join_words : List (List ℕ) → List ℕ
join_words [] = []
join_words (word ∷ []) = word
join_words (word ∷ next ∷ words) = word ++ codes " " ++ join_words (next ∷ words)

-- A destination that no download waits for is released.
abbrev pub with_dest : Client → Bool → Bool × Client
with_dest client sent = (sent, if sent then client else record client { dest_file = none })

-- std::getline at the end of the input leaves the empty line.
abbrev pub next_line : List (List ℕ) → List ℕ × List (List ℕ)
next_line [] = ([], [])
next_line (line ∷ lines) = (line, lines)

module _ (os : Os) where
  open os use {World}

  abbrev pub with_socket : Client → Option Socket → Cmd World Client
  with_socket client none w = exited aborted
  with_socket client (some socket) w = pure (record client { socket = some socket }) w

  -- Client::connect
  unfoldable pub connect_server : Client → Cmd World Client
  unfolding connect
  connect_server client = do
    socket ← connect os client.srv_address client.srv_port
    with_socket client socket

  -- The destination, which exists or is made.
  abbrev pub or_new : List ℕ → Option File → Cmd World (Option File)
  or_new dest (some f) = pure (some f)
  or_new dest none = do opening ← open_path os dest (codes "wb"); pure (file_of opening)

  -- The request for the size of a file, which the server is asked for once the destination is open.
  abbrev pub request_info : Client → Option File → Cmd World (Bool × Client)
  request_info client none = pure (false, record client { dest_file = none })
  request_info client (some f) =
      let request = concat (store_ulong 0 ++ store_ulong 0) client.src_file in
      do
        socket ← deref client.socket
        sent ← send_request os socket download_info request
        pure (with_dest (record client { dest_file = some f }) sent)

  -- The command `download` or `dl` with its words.
  abbrev pub send_download : Client → List (List ℕ) → Cmd World (Bool × Client)
  send_download client (_ ∷ src ∷ dest ∷ []) = do
    opening ← open_path os dest (codes "r+b")
    f ← or_new dest (file_of opening)
    request_info (record client { src_file = src }) f
  send_download client words = pure (false, client)

  abbrev pub send_text : Client → List ℕ → Cmd World (Bool × Client)
  send_text client text =
      let client' = record client { active = client.active && not (is_quit text) } in
      do
        socket ← deref client'.socket
        sent ← send_request os socket command text
        pure (sent, client')

  abbrev pub send_words : Client → List ℕ → List (List ℕ) → Cmd World (Bool × Client)
  send_words client text [] = pure (false, client)
  send_words client text (word ∷ words) =
      if is_download word then send_download client (word ∷ words) else send_text client text

  -- Client::sendCommand
  unfoldable pub send_command : Client → List ℕ → Cmd World (Bool × Client)
  unfolding open_path send_request concat store_ulong split
  send_command client text = do
    words ← finished (split text (codes " "))
    send_words client text words

  -- Client::handleDownloadInfo. The download reads its parts as `run` says.
  unfoldable pub handle_download_info :
      (List ℕ → Download → Cmd World Download) → Client → ByteBuffer → Cmd World Client
  unfolding load_ulong download_wait
  handle_download_info run client response = do
    n ← deref (load_ulong response 0 8)
    dest ← deref client.dest_file
    _ ← download_wait os run client.download_threads client.src_file dest n
    pure (record client { dest_file = none })

  -- What is printed of a packet, and what is done with it.
  abbrev pub handle_packet :
      (List ℕ → Download → Cmd World Download)
      → Client
      → Option ResponsePacket × ByteBuffer
      → Cmd World (List ℕ × Client)
  handle_packet run client (none, buffer) = λ w. exited 1
  handle_packet run client (some resp, buffer) =
      let client' = record client { read_buffer = buffer } in
      let reply : Cmd World (List ℕ × Client) = (do
        client'' ← handle_download_info run client' resp.content
        pure ([], client'')) in
      if resp.type == response_byte plain_text
      then pure (c_str (write_ushort resp.content 0), client')
      else (if resp.type == response_byte binary
          then (λ w. exited aborted)
          else (if resp.type == response_byte download_info_reply
              then reply
              else pure (codes "Packet type unknown", client')))

  -- Client::handleResponse, of which every round returns or ends the process; what it prints for a
  -- download is left out.
  unfoldable pub handle_response :
      (List ℕ → Download → Cmd World Download) → Client → Cmd World (List ℕ × Client)
  unfolding receive_response write_ushort c_str handle_download_info
  handle_response run client = do
    socket ← deref client.socket
    response ← receive_response os socket client.read_buffer
    handle_packet run client response

  -- The rest of a round, once a command was sent.
  abbrev pub after_command :
      (List ℕ → Download → Cmd World Download) → Bool × Client → Cmd World (List ℕ × Client)
  after_command run (sent, client) =
      if sent then handle_response run client else pure (codes "Failed to send command\n", client)

  -- Client::runCommand, of the words of the command line.
  unfoldable pub run_command :
      (List ℕ → Download → Cmd World Download)
      → Client
      → List (List ℕ)
      → Cmd World (List ℕ × Client)
  unfolding send_command handle_response join_words
  run_command run client words = do
    answer ← send_command client (join_words words)
    after_command run answer

  -- The loop of Client::runRepl on the lines of the standard input.
  unfoldable pub run_repl :
      ℕ → (List ℕ → Download → Cmd World Download) → Client → List (List ℕ) → Cmd World Client
  unfolding send_command handle_response
  run_repl zero run client lines w = stuck
  run_repl (suc fuel) run client lines w =
      let (line, lines') = next_line lines in
      let round : Cmd World Client = (do
        answer ← send_command client line
        (_, client') ← after_command run answer
        run_repl fuel run client' lines') in
      let rest = round w in if client.active then rest else done client w
