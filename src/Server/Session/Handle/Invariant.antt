-- ===== src/Server/Session/Handle/Invariant.antt =====
-- What every event keeps: a session that writes has a file to write.
use cs_network_proj.Base.{
  u32, ℕ, zero, suc, ◌+◌, ◌≡◌, refl, ◌⊎◌, inl, inr, Bool, true, false, List, Option, none, some,
  arith, ◌==◌, ltb, Bool-cases, c_str,
}
use cs_network_proj.Base.Int.{ℤ, pos, negsuc}
use cs_network_proj.Base.Outcome.{deref, Holds, Holds-bind, Holds-mono}
use cs_network_proj.Os.{Os}
use cs_network_proj.Network.Socket
use cs_network_proj.Util.ByteBuffer.{Byte, ByteBuffer, slice, index, write_ushort, read_uint}
use cs_network_proj.Util.File.{File}
use cs_network_proj.Util.ByteBuffer.Memory.{load_ulong}
use cs_network_proj.Server.Session.State.{
  writing, ended, FileProcess, State, DownloadRequestPacket, attach_buffer, request_size,
  with_session,
}
use cs_network_proj.Server.Session.Replies.{open_download_file}
use cs_network_proj.Server.Session.Commands.{
  list_directory, list_command, run_command, process_command,
}
use cs_network_proj.Server.Session.Downloads.{
  serve_file, serve_opened, read_request, process_download,
}
use cs_network_proj.Server.Session.Writing.{
  Sending, after_sending, check_process, send_loop, handle_writing,
}
use cs_network_proj.Server.Session.Handle.{
  dispatch, after_request, read_packet, handle_reading, handle,
}

-- A session with status `writing` has a file, which `handleWriting` needs.
abbrev pub HasFile : State → Type 0
HasFile s = s.status ≡ writing → (p : FileProcess) × (s.file_process ≡ some p)

-- A step that leaves the file alone, and goes on or ends.
abbrev Kept : State → State → Type 0
Kept s s' = (s'.file_process ≡ s.file_process) × ((s'.status ≡ s.status) ⊎ (s'.status ≡ ended))

Kept-HasFile : (s s' : State) → HasFile s → Kept s s' → HasFile s'
Kept-HasFile s s' h (same, inl e) on = let (p, f) = h (cc) in (p, cc)
Kept-HasFile s s' h (same, inr e) on = cc

module _ (os : Os) where
  open os use {World}

  list_directory-Kept :
      (s : State) (path : List ℕ) (w : World)
      → Holds (λ s' _. Kept s s') (list_directory os s path w)
  unfolding list_directory
  list_directory-Kept s path w = ground arith

  list_command-Kept :
      (s : State) (cmds : List (List ℕ)) (w : World)
      → Holds (λ s' _. Kept s s') (list_command os s cmds w)
  unfolding list_command
  list_command-Kept s cmds w = ground arith

  run_command-Kept :
      (s : State) (cmd : List ℕ) (w : World) → Holds (λ s' _. Kept s s') (run_command os s cmd w)
  unfolding run_command
  run_command-Kept s cmd w = ground arith

  process_command-Kept :
      (read_len : ℕ) (s : State) (w : World)
      → Holds (λ s' _. Kept s s') (process_command os read_len s w)
  unfolding process_command
  process_command-Kept read_len s w = ground arith

  serve_file-HasFile :
      (req : DownloadRequestPacket) (info_only : Bool) (s : State) (file : File) (w : World)
      → HasFile s
      → Holds (λ s' _. HasFile s') (serve_file os req info_only s file w)
  unfolding serve_file
  serve_file-HasFile req info_only s file w h = ground arith

  serve_opened-HasFile :
      (req : DownloadRequestPacket) (info_only : Bool) (s : State) (opened : Option File)
      (w : World)
      → HasFile s
      → Holds (λ s' _. HasFile s') (serve_opened os req info_only s opened w)
  serve_opened-HasFile req info_only s none w h = h
  serve_opened-HasFile req info_only s (some file) w h = serve_file-HasFile req info_only s file w h

  read_request-HasFile :
      (read_len : ℕ) (info_only : Bool) (s : State) (w : World)
      → HasFile s
      → Holds (λ s' _. HasFile s') (read_request os read_len info_only s w)
  unfolding read_request
  read_request-HasFile read_len info_only s w h =
      let P = λ (s' : State) (_ : World). HasFile s' in
      Holds-bind P (deref s.read_buffer w) _ λ buffer w.
        Holds-bind P (deref (load_ulong buffer 1 8) w) _ λ offset w.
          Holds-bind P (deref (load_ulong buffer 9 8) w) _ λ n w.
            Holds-bind P (deref (slice buffer (pos (1 + request_size)) (pos read_len)) w) _
              λ name w.
                Holds-bind P (open_download_file os s.session (c_str (write_ushort name 0)) w) _
                  λ opened w.
                    serve_opened-HasFile (record { offset = offset; size = n }) info_only s opened w
                      h

  process_download-HasFile :
      (read_len : ℕ) (info_only : Bool) (s : State) (w : World)
      → HasFile s
      → Holds (λ s' _. HasFile s') (process_download os read_len info_only s w)
  unfolding process_download
  process_download-HasFile read_len info_only s w h =
      let long = read_request-HasFile read_len info_only s w h in
      elim (Bool-cases (ltb read_len (1 + request_size))) [ inl e ↦ rw e h | inr e ↦ rw e long ]

  after_sending-HasFile :
      (process : FileProcess) (s : State) (sending : Sending)
      → HasFile (after_sending process s sending)
  after_sending-HasFile process s none e = cc
  after_sending-HasFile process s (some zero) e = cc
  after_sending-HasFile process s (some (suc rest)) e = (record process { rest = suc rest }, refl)

  handle_writing-HasFile :
      (s : State) (w : World) → Holds (λ s' _. HasFile s') (handle_writing os s w)
  unfolding handle_writing
  handle_writing-HasFile s w =
      let P = λ (s' : State) (_ : World). HasFile s' in
      Holds-bind P (check_process os s s.file_process w) _ λ s' w.
        Holds-bind P (deref s'.file_process w) _ λ process w.
          Holds-bind P (send_loop os (suc process.rest) s'.conn_socket process.file process.rest w)
            _ λ left w. after_sending-HasFile process s' left

  dispatch-HasFile :
      (type : Byte) (read_len : ℕ) (s : State) (w : World)
      → HasFile s
      → Holds (λ s' _. HasFile s') (dispatch os type read_len s w)
  unfolding dispatch
  dispatch-HasFile type read_len s w h =
      let P = λ (s' : State) (_ : World). HasFile s' in
      let command =
        Holds-mono _ P (process_command os read_len s w) (process_command-Kept read_len s w)
          λ s' _. Kept-HasFile s s' h in
      let file = process_download-HasFile read_len false s w h in
      let info = process_download-HasFile read_len true s w h in
      elim (Bool-cases (type == 0)) [
        | inl e ↦ rw e command
        | inr e ↦ rw e (elim (Bool-cases (type == 1)) [
          | inl e1 ↦ rw e1 file
          | inr e1 ↦
              rw e1
                (elim (Bool-cases (type == 2)) [ inl e2 ↦ rw e2 info | inr e2 ↦ rw e2 (λ on. cc) ])
        ])
      ]

  after_request-HasFile :
      (s : State) (read_len : ℤ) (buffer : ByteBuffer) (w : World)
      → HasFile s
      → Holds (λ s' _. HasFile s') (after_request os s read_len buffer w)
  unfolding after_request
  after_request-HasFile s (negsuc zero) buffer w h = λ e. cc
  after_request-HasFile s (negsuc (suc n)) buffer w h = h
  after_request-HasFile s (pos zero) buffer w h = h
  after_request-HasFile s (pos (suc n)) buffer w h =
      Holds-bind (λ s' _. HasFile s') (deref (index buffer (pos 0)) w) _
        λ type w. dispatch-HasFile type (u32 (suc n)) s w h

  read_packet-HasFile :
      (s : State) (buffer : ByteBuffer) (w : World)
      → HasFile s
      → Holds (λ s' _. HasFile s') (read_packet os s buffer w)
  unfolding read_packet
  read_packet-HasFile s buffer w h =
      let P = λ (s' : State) (_ : World). HasFile s' in
      Holds-bind P (deref (read_uint buffer 0) w) _ λ n w.
        Holds-bind P (Socket.read os s.conn_socket buffer n w) _ λ (read_len, buffer) w.
          after_request-HasFile (with_session s (attach_buffer buffer s.session)) read_len buffer w
            h

  handle_reading-HasFile :
      (s : State) (w : World) → HasFile s → Holds (λ s' _. HasFile s') (handle_reading os s w)
  unfolding handle_reading
  handle_reading-HasFile s w h =
      let P = λ (s' : State) (_ : World). HasFile s' in
      Holds-bind P (deref s.read_buffer w) _ λ buffer w.
        Holds-bind P (Socket.read os s.conn_socket buffer 4 w) _
          λ (_, buffer) w. read_packet-HasFile s buffer w h

  -- After each event that returns, a session that writes still has its file.
  pub handle-HasFile :
      (s : State) (w : World) → HasFile s → Holds (λ s' _. HasFile s') (handle os s w)
  unfolding handle
  handle-HasFile s w h =
      let read = handle_reading-HasFile s w h in
      let write = handle_writing-HasFile s w in ground arith
