-- ===== src/Server/Session/State.antt =====
-- Session.h: the state of a session, and the memory that it reads and writes.
use cs_network_proj.Base.{ℕ, Bool, false, ◌||◌, Option, none, some, List, [], ◌∷◌, codes}
use cs_network_proj.Util.ByteBuffer.{ByteBuffer}
use cs_network_proj.Util.File.{File}
use cs_network_proj.Util.StringUtil.{contains}
use cs_network_proj.Network.Socket.{Socket}
use cs_network_proj.Server.Instance.{Server}

pub data SessionStatus : Type 0 where
  reading writing ended : SessionStatus

pub record FileProcess : Type 0 where
  pub file : File
  pub rest : ℕ

pub record Session : Type 0 where
  pub status : SessionStatus
  pub conn_socket : Socket
  pub read_buffer : Option ByteBuffer
  pub file_process : Option FileProcess

pub record State : Type 0 where
  pub session : Session
  pub open session use *
  pub server : Server

abbrev pub new_session : Socket → Session
new_session socket = record {
  status = reading;
  conn_socket = socket;
  read_buffer = none;
  file_process = none;
}

abbrev pub attach_buffer : ByteBuffer → Session → Session
attach_buffer buffer s = record s { read_buffer = some buffer }

abbrev pub detach_buffer : Session → Session
detach_buffer s = record s { read_buffer = none }

abbrev pub with_session : State → Session → State
with_session s session = record { session = session; server = s.server }

abbrev pub then_status : SessionStatus → State → State
then_status status s = with_session s (record s.session { status = status })

abbrev pub share_root : List ℕ
share_root = codes "share"

-- The characters that a path may not hold, for it is put between quotes in a shell command.
abbrev pub bad_chars : List ℕ
bad_chars = codes "<|>&'"

-- strpbrk
unfoldable pub has_any : List ℕ → List ℕ → Bool
unfolding contains
has_any chars [] = false
has_any chars (c ∷ cs) = contains chars c || has_any chars cs

pub record DownloadRequestPacket : Type 0 where
  pub offset : ℕ
  pub size : ℕ

-- sizeof(DownloadRequestPacket)
abbrev pub request_size : ℕ
request_size = 16
