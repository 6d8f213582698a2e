-- ===== src/Server/Session/Writing.antt =====
-- Session.cpp: `handleWriting`.
pub mod Progress
use cs_network_proj.Base.{ℕ, zero, suc, ◌-◌, Option, none, some, ltb, if◌then◌else◌, codes}
use cs_network_proj.Base.Outcome.{done, fault, stuck, Cmd, pure, deref, ◌>>=◌, ◌>>◌}
use cs_network_proj.Os.{Os, again, no_entry, other, WriteResult, wrote, write_failed}
use cs_network_proj.Util.File.{File}
use cs_network_proj.Network.Socket.{Socket}
use cs_network_proj.Server.Session.State.{
  reading, ended, FileProcess, State, with_session, then_status,
}
use cs_network_proj.Server.Session.Replies.{say}

-- How the loop over `sendfile` ended: with so much left, or by an error or a closed connection.
abbrev pub Sending : Type 0
Sending = Option ℕ

abbrev pub after_sending : FileProcess → State → Sending → State
after_sending process s none = then_status ended s
after_sending process s (some zero) = then_status reading s
after_sending process s (some (suc rest)) =
    with_session s (record s.session { file_process = some (record process { rest = suc rest }) })

module _ (os : Os) where
  open os use {World}

  abbrev pub after_sendfile : (ℕ → Cmd World Sending) → ℕ → WriteResult → Cmd World Sending
  after_sendfile next rest (write_failed again) w = done (some rest) w
  after_sendfile next rest (write_failed no_entry) w = done none w
  after_sendfile next rest (write_failed other) w = done none w
  after_sendfile next rest (wrote zero) w = done none w
  after_sendfile next rest (wrote (suc n)) w =
      let on = next (rest - suc n) w in if ltb rest (suc n) then fault else on

  unfoldable pub send_loop : ℕ → Socket → File → ℕ → Cmd World Sending
  send_loop zero socket file rest w = stuck
  send_loop (suc fuel) socket file zero w = done (some 0) w
  send_loop (suc fuel) socket file (suc rest) w =
      let (r, w') = os.sendfile w socket.fd file.file (suc rest) in
      after_sendfile (send_loop fuel socket file) (suc rest) r w'

  abbrev pub check_process : State → Option FileProcess → Cmd World State
  check_process s none = do
    say os s.session (codes "Server internal error")
    pure (then_status ended s)
  check_process s (some process) = pure s

  -- A session with no file says so and ends, and then goes on to use the file.
  unfoldable pub handle_writing : State → Cmd World State
  unfolding say send_loop
  handle_writing s = do
    s' ← check_process s s.file_process
    process ← deref s'.file_process
    left ← send_loop (suc process.rest) s'.conn_socket process.file process.rest
    pure (after_sending process s' left)
