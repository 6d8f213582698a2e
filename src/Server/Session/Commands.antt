-- ===== src/Server/Session/Commands.antt =====
-- Session.cpp: `processCommand`.
use cs_network_proj.Base.{
  ℕ, ◌||◌, List, [], ◌∷◌, ◌++◌, length, get_elem?, ◌==◌, if◌then◌else◌, codes, c_str, text_eq,
}
use cs_network_proj.Base.Int.{pos}
use cs_network_proj.Base.Outcome.{Cmd, pure, deref, ◌>>=◌, ◌>>◌}
use cs_network_proj.Os.{Os}
use cs_network_proj.Util.ByteBuffer.{write_ushort, slice}
use cs_network_proj.Util.File.{open_command, read_file}
use cs_network_proj.Util.StringUtil.{split}
use cs_network_proj.Protocol.{plain_text}
use cs_network_proj.Server.Instance.{Server}
use cs_network_proj.Server.Instance
use cs_network_proj.Base.Outcome.{finished}
use cs_network_proj.Util.File.{file_of}
use cs_network_proj.Server.Session.State.{ended, State, attach_buffer, with_session, then_status}
use cs_network_proj.Server.Session.Replies.{send_response, say, validate_path}

module _ (os : Os) where
  open os use {World}

  -- The reply to a valid `ls`, by a shell command. `popen` may fail, and the pointer is not tested.
  unfoldable pub list_directory : State → List ℕ → Cmd World State
  unfolding say send_response open_command read_file slice
  list_directory s path = do
    buffer ← deref s.read_buffer
    opening ← open_command os (codes "ls -al '" ++ (path ++ codes "'")) (codes "r")
    p_file ← deref (file_of opening)
    (cmd_len, buffer) ← read_file os p_file buffer 0
    let s' = with_session s (attach_buffer buffer s.session)
    if cmd_len == 0 then (do say os s.session (codes "Directory not existed!\n"); pure s') else (do
      result ← deref (slice buffer (pos 0) (pos cmd_len))
      _ ← send_response os s.session plain_text result
      pure s')

  abbrev pub list_valid : State → List ℕ → Cmd World State
  list_valid s [] = pure s
  list_valid s (c ∷ cs) = list_directory s (c ∷ cs)

  unfoldable pub list_command : State → List (List ℕ) → Cmd World State
  unfolding say validate_path list_directory
  list_command s cmds =
      if length cmds == 2
      then (do
        arg ← deref (get_elem? cmds 1)
        path ← validate_path os s.session arg
        list_valid s path)
      else (do say os s.session (codes "list command takes exact 1 params!\n"); pure s)

  -- The command is looked at before its first word is taken, and a command of blanks has none.
  unfoldable pub run_command : State → List ℕ → Cmd World State
  unfolding say list_command text_eq split Instance.kill
  run_command s cmd =
      if text_eq cmd (codes "quit") || text_eq cmd (codes "q")
      then (do say os s.session (codes "Bye\n"); pure (then_status ended s))
      else (do
        cmds ← finished (split cmd (codes " "))
        name ← deref (get_elem? cmds 0)
        if text_eq name (codes "ls") || text_eq name (codes "list")
            then list_command s cmds
            else (if text_eq cmd (codes "shutdown")
                then (do
                  say os s.session (codes "Shutdown server...\n")
                  server ← Instance.kill os s.server
                  pure (record s { server = server }))
                else (do
                  say os s.session (codes "Unrecognised command: " ++ (cmd ++ codes "\n"))
                  pure s)))

  unfoldable pub process_command : ℕ → State → Cmd World State
  unfolding run_command slice write_ushort c_str
  process_command read_len s = do
    buffer ← deref s.read_buffer
    buf_cmd ← deref (slice buffer (pos 1) (pos read_len))
    run_command s (c_str (write_ushort buf_cmd 0))
