-- ===== src/Server/Session/Downloads/Ranges.antt =====
-- Which ranges of a file are served, and how.
use cs_network_proj.Base.{
  ℕ, ◌+◌, ◌^◌, ◌≤◌, ◌<◌, ◌≡◌, ◌↔◌, refl, ◌⊎◌, inl, inr, Bool, true, false, some, arith, Bool-cases,
  codes,
}
use cs_network_proj.Base.Outcome.{pure, Ensures, Ensures-bind, Ensures-mono}
use cs_network_proj.Os.{Os, WritesStream}
use cs_network_proj.Util.File.{File, seek}
use cs_network_proj.Protocol.{plain_text, binary, download_info_reply}
use cs_network_proj.Util.ByteBuffer.Memory.{store_ulong}
use cs_network_proj.Server.Session.State.{writing, State, with_session, DownloadRequestPacket}
use cs_network_proj.Server.Session.Replies.{send_response, say}
use cs_network_proj.Server.Session.Replies.Paths.{Replied, send_response-Replied, say-Replied}
use cs_network_proj.Server.Session.Downloads.{
  in_file, asked, start_writing, serve_range, serve_file,
}

-- The test of the code wraps round at 2 ^ 64. For a file below 2 ^ 63 bytes it is the test of the
-- true end of the range.
pub in_file_iff :
    (offset n file_size : ℕ)
    → file_size < 2 ^ 63
    → (in_file offset n file_size ≡ true) ↔ (offset + n ≤ file_size)
in_file_iff offset n file_size h = (λ e. ground arith, λ e. ground arith)

past :
    (offset n file_size : ℕ)
    → file_size < 2 ^ 63
    → in_file offset n file_size ≡ false
    → file_size < offset + n
past offset n file_size h e = ground arith

-- The size of a file as the session learns it, and the state behind that.
abbrev pub size_of : (os : Os) → os.World → File → ℕ
size_of os w file = os.ftell (os.fseek_end w file.file) file.file

abbrev pub rewound : (os : Os) → os.World → File → os.World
rewound os w file = os.fseek_set (os.fseek_end w file.file) file.file 0

abbrev pub started : State → File → ℕ → State
started s file n =
    with_session s (record s.session {
      status = writing;
      file_process = some (record { file = file; rest = n });
    })

module _ (os : Os) (stream : WritesStream os) where
  open os use {World}

  -- The header is sent with the size of the range. A download goes on to send the file, from its
  -- offset on; a question for information changes nothing.
  abbrev pub Accepted :
      DownloadRequestPacket → Bool → State → File → ℕ → World → State → World → Type 0
  Accepted req true s file n w s' w' =
      Replied os stream s.session download_info_reply (store_ulong n) w w' × (s' ≡ s)
  Accepted req false s file n w s' w' =
      (v : World) × Replied os stream s.session binary (store_ulong n) w v
      × (s' ≡ started s file n)
      × (w' ≡ os.fseek_set v file.file req.offset)

  serve_range-Accepted :
      (req : DownloadRequestPacket) (info_only : Bool) (s : State) (file : File) (w : World)
      → Ensures (Accepted req info_only s file req.size w) (serve_range os req info_only s file w)
  unfolding seek
  serve_range-Accepted req true s file w =
      Ensures-bind _ (Accepted req true s file req.size w)
        (send_response os s.session download_info_reply (store_ulong req.size) w) (λ _. pure s)
        (send_response-Replied os stream s.session download_info_reply (store_ulong req.size) w)
        (λ ok w' r. (r.0, refl))
  serve_range-Accepted req false s file w =
      Ensures-bind _ (Accepted req false s file req.size w)
        (send_response os s.session binary (store_ulong req.size) w)
        (λ _. start_writing os file req s)
        (send_response-Replied os stream s.session binary (store_ulong req.size) w)
        (λ ok w' r. (w', r.0, refl, refl))

  -- What becomes of a request for an opened file.
  abbrev pub Served : DownloadRequestPacket → Bool → State → File → World → State → World → Type 0
  Served req info_only s file w s' w' =
      let file_size = size_of os w file in
      let n = asked req file_size in
      ((req.offset + n ≤ file_size) × Accepted req info_only s file n (rewound os w file) s' w')
      ⊎ ((file_size < req.offset + n)
          × (s' ≡ s)
          × Replied os stream s.session plain_text (codes "Bad file size\n") (rewound os w file) w')

  -- For a file below 2 ^ 63 bytes the request comes to an end. A range is served exactly when its
  -- true end is not behind the end of the file; any other request is refused with a message and
  -- leaves the session as it was. The header or the message goes out whole, or a proper prefix of it
  -- does and the socket takes nothing of the rest.
  pub serve_file-Served :
      (req : DownloadRequestPacket) (info_only : Bool) (s : State) (file : File) (w : World)
      → size_of os w file < 2 ^ 63
      → Ensures (Served req info_only s file w) (serve_file os req info_only s file w)
  unfolding serve_file
  serve_file-Served req info_only s file w h =
      let file_size = size_of os w file in
      let n = asked req file_size in
      let fits = in_file_iff req.offset n file_size h in
      let v = rewound os w file in
      elim (Bool-cases (in_file req.offset n file_size)) [
        | inl inside ↦ rw inside (
            Ensures-mono (Accepted req info_only s file n v) (Served req info_only s file w) _
              (serve_range-Accepted (record req { size = n }) info_only s file v)
              λ s' w' accepted. inl (fits.0 inside, accepted))
        | inr outside ↦ rw outside (
            Ensures-bind _ (Served req info_only s file w)
              (say os s.session (codes "Bad file size\n") v) (λ _. pure s)
              (say-Replied os stream s.session (codes "Bad file size\n") v)
              λ _ w' replied. inr (past req.offset n file_size h outside, refl, replied))
      ]
