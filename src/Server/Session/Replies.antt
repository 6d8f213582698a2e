-- ===== src/Server/Session/Replies.antt =====
-- Session.cpp: the replies, and the check of a path that a client names. The log is left out.
pub mod Paths
use cs_network_proj.Base.{
  ℕ, Bool, Option, none, some, List, [], ◌∷◌, ◌++◌, ◌==◌, if◌then◌else◌, codes, c_str, is_prefix,
}
use cs_network_proj.Base.Outcome.{done, Cmd, pure, ◌>>=◌, ◌>>◌}
use cs_network_proj.Os.{Os, Errno, again, no_entry, other}
use cs_network_proj.Util.ByteBuffer.{ByteBuffer, size}
use cs_network_proj.Util.File.{File, Opening, open_file, no_file, open_path}
use cs_network_proj.Network.Socket.{write}
use cs_network_proj.Protocol.{ResponseType, plain_text, response_byte, packet}
use cs_network_proj.Server.Session.State.{Session, share_root, bad_chars, has_any}

module _ (os : Os) where
  open os use {World}

  unfoldable pub send_response : Session → ResponseType → ByteBuffer → Cmd World Bool
  unfolding write packet
  send_response s type content =
      let send_buffer = packet (response_byte type) content in
      do n ← write os s.conn_socket send_buffer; pure (n == size send_buffer)

  unfoldable pub say : Session → List ℕ → Cmd World (Unit {0})
  unfolding send_response
  say s text = do _ ← send_response s plain_text text; pure tt

  abbrev pub bad_path : Session → Cmd World (List ℕ)
  bad_path s = do say s (codes "Bad file path\n"); pure []

  -- The empty path is the refusal.
  unfoldable pub validate_path : Session → List ℕ → Cmd World (List ℕ)
  unfolding say has_any
  validate_path s path w =
      let real = c_str (os.realpath w (share_root ++ (codes "/" ++ path))) in
      let root = c_str (os.getcwd w) ++ (codes "/" ++ share_root) in
      if has_any bad_chars (c_str path)
      then bad_path s w
      else (if is_prefix root real then done real w else bad_path s w)

  abbrev pub refuse_file : Session → Errno → Cmd World (Option File)
  refuse_file s no_entry = do say s (codes "File not exist\n"); pure none
  refuse_file s again = do say s (codes "Unexpected file error\n"); pure none
  refuse_file s other = do say s (codes "Unexpected file error\n"); pure none

  abbrev pub opened_file : Session → Opening → Cmd World (Option File)
  opened_file s (open_file f) = pure (some f)
  opened_file s (no_file e) = refuse_file s e

  abbrev pub open_valid : Session → List ℕ → Cmd World (Option File)
  open_valid s [] = pure none
  open_valid s (c ∷ cs) = do opening ← open_path os (c ∷ cs) (codes "rb"); opened_file s opening

  unfoldable pub open_download_file : Session → List ℕ → Cmd World (Option File)
  unfolding validate_path open_path
  open_download_file s path = do real_path ← validate_path s path; open_valid s real_path
