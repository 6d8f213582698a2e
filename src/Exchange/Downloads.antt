-- ===== src/Exchange/Downloads.antt =====
-- From the request of a client for a part or for the size of a file, `downloadPart` and
-- `sendCommand`, to the part of the session that serves it, `processDownload`.
use cs_network_proj.Base.{
  ℕ, suc, ◌+◌, ◌^◌, ◌≤◌, ◌<◌, ◌≡◌, ◌≢◌, refl, sym, ap, ◌∙◌, Bool, true, false, some, List, [], ◌∷◌,
  ◌++◌, arith, length, drop, All, take-append-drop, length-append, ltb, c_str,
}
use cs_network_proj.Base.Int.{pos}
use cs_network_proj.Base.Outcome.{Outcome, Cmd, ◌>>=◌}
use cs_network_proj.Os.{Os, ReadsArrived}
use cs_network_proj.Util.ByteBuffer.{Byte, ByteBuffer, concat, write_ushort, slice}
use cs_network_proj.Util.ByteBuffer.Memory.{
  load_ulong, store_ulong, load_ulong-append, load_ulong-store_ulong,
}
use cs_network_proj.Util.ByteBuffer.Slices.{slice_iff}
use cs_network_proj.Protocol.{packet, RequestType, download, download_info, request_byte}
use cs_network_proj.Server.Session.State.{State, attach_buffer, with_session}
use cs_network_proj.Server.Session.Replies.{open_download_file}
use cs_network_proj.Server.Session.Downloads.{serve_opened, read_request, process_download}
use cs_network_proj.Server.Session.Handle.{dispatch, handle_reading}
use cs_network_proj.Server.Session.Handle.Requests.{IsDispatched, handle_reading-IsDispatched}

-- The content of the request, as the client puts it together.
abbrev pub request_content : ℕ → ℕ → List ℕ → ByteBuffer
request_content offset n path = concat (store_ulong offset ++ store_ulong n) path

abbrev pub request_type : Bool → RequestType
request_type false = download
request_type true = download_info

length-request_content :
    (offset n : ℕ) (path : List ℕ) → length (request_content offset n path) ≡ 16 + length path
unfolding store_ulong concat
length-request_content offset n path = omega arith

-- A path without a zero is read to its end.
c_str-write_ushort : (path : List ℕ) → All (λ c. c ≢ 0) path → c_str (write_ushort path 0) ≡ path
unfolding c_str write_ushort
c_str-write_ushort [] h = refl
c_str-write_ushort (c ∷ cs) (h, hs) = ground (arith, c_str-write_ushort cs hs)

-- A buffer that starts with a request, with what stands behind it.
module _ (type : Byte) (offset n : ℕ) (path rest buffer : ByteBuffer)
    (starts : buffer ≡ type ∷ (request_content offset n path ++ rest)) where
  load_offset : offset < 2 ^ 64 → load_ulong buffer 1 8 ≡ some offset
  unfolding concat store_ulong
  load_offset h =
      ap (λ b. load_ulong b 1 8) starts
      ∙ load_ulong-append (type ∷ []) (request_content offset n path ++ rest) 0 8
      ∙ load_ulong-store_ulong offset (store_ulong n ++ (path ++ rest)) h

  load_size : n < 2 ^ 64 → load_ulong buffer 9 8 ≡ some n
  unfolding concat store_ulong
  load_size h =
      ap (λ b. load_ulong b 9 8) starts
      ∙ load_ulong-append (type ∷ store_ulong offset) (store_ulong n ++ (path ++ rest)) 0 8
      ∙ load_ulong-store_ulong n (path ++ rest) h

  slice_path : 0 < length path → slice buffer (pos 17) (pos (17 + length path)) ≡ some path
  unfolding concat store_ulong
  slice_path h =
      let front = type ∷ (store_ulong offset ++ store_ulong n) in
      let parts : buffer ≡ front ++ (path ++ rest) = starts in
      (slice_iff buffer (pos 17) (pos (17 + length path)) path).1 (record {
        pre = front;
        post = rest;
        parts = parts;
        starts = refl;
        ends = refl;
        inside =
            omega
              (arith, ap length parts, length-append front (path ++ rest), length-append path rest);
        positive = omega arith;
      })

module _ (os : Os) where
  open os use {World}

  -- The file that is named is opened, and the range that is asked for is served of it.
  abbrev pub serve_named : Bool → ℕ → ℕ → List ℕ → State → Cmd World State
  serve_named info offset n path s = do
    opened ← open_download_file os s.session path
    serve_opened os (record { offset = offset; size = n }) info s opened

  read_request-serve_named :
      (s : State) (info : Bool) (offset n : ℕ) (path buffer : ByteBuffer) (w : World)
      → s.read_buffer ≡ some buffer
      → load_ulong buffer 1 8 ≡ some offset
      → load_ulong buffer 9 8 ≡ some n
      → slice buffer (pos 17) (pos (17 + length path)) ≡ some path
      → All (λ c. c ≢ 0) path
      → read_request os (17 + length path) info s w ≡ serve_named info offset n path s w
  unfolding read_request
  read_request-serve_named s info offset n path buffer w has e f g h =
      simp (has, e, f, g, c_str-write_ushort path h)

  dispatch-process_download :
      (s : State) (info : Bool) (m : ℕ) (w : World)
      → dispatch os (request_byte (request_type info)) m s w ≡ process_download os m info s w
  unfolding dispatch
  dispatch-process_download s false m w = refl
  dispatch-process_download s true m w = refl

  process_download-read_request :
      (s : State) (info : Bool) (m : ℕ) (w : World)
      → process_download os (17 + m) info s w ≡ read_request os (17 + m) info s w
  unfolding process_download
  process_download-read_request s info m w =
      let long : ltb (17 + m) 17 ≡ false = ground arith in rw long refl

module _ (os : Os) (arrived : ReadsArrived os) where
  open os use {World}
  open arrived use {pending}

  -- The request was taken off the socket, and is served as the client meant it.
  abbrev pub IsServed : State → Bool → ℕ → ℕ → List ℕ → ℕ → Outcome World State → Type 0
  IsServed s info offset n path capacity r =
      (buffer : ByteBuffer) × (w : World) × (length buffer ≡ capacity)
      × (pending w s.conn_socket.fd ≡ [])
      × (r ≡ serve_named os info offset n path (with_session s (attach_buffer buffer s.session)) w)

  -- A session that reads, to which the request of a client has come for a range of a file, or for its
  -- size, opens the file that the client named and serves the range that it asked for, if the request
  -- fits the buffer, its numbers 64 bits, and the path is not empty and has no zero.
  pub handle_reading-IsServed :
      (s : State) (info : Bool) (offset n : ℕ) (path buffer : ByteBuffer) (w : World)
      → s.read_buffer ≡ some buffer
      → 17 + length path ≤ length buffer
      → 17 + length path < 2 ^ 32
      → offset < 2 ^ 64
      → n < 2 ^ 64
      → 0 < length path
      → All (λ c. c ≢ 0) path
      → pending w s.conn_socket.fd
        ≡ packet (request_byte (request_type info)) (request_content offset n path)
      → IsServed s info offset n path (length buffer) (handle_reading os s w)
  handle_reading-IsServed s info offset n path buffer w has long short ho hn some_path clean e =
      let content = request_content offset n path in
      let type = request_byte (request_type info) in
      let width = length-request_content offset n path in
      let (b, v, same, starts, left, ran) : IsDispatched os arrived s type content (length buffer)
          (handle_reading os s w) =
        handle_reading-IsDispatched os arrived s type content buffer w has (omega arith)
          (omega arith) (omega arith) e in
      let parts : b ≡ type ∷ (content ++ drop (suc (length content)) b) =
        sym (take-append-drop (suc (length content)) b)
        ∙ ap (λ f. f ++ drop (suc (length content)) b) starts in
      let rest = drop (suc (length content)) b in
      let s' = with_session s (attach_buffer b s.session) in
      let count : suc (length content) ≡ 17 + length path = omega arith in
      (
        b,
        v,
        same,
        left,
        ran
            ∙ dispatch-process_download os s' info (suc (length content)) v
            ∙ ap (λ m. process_download os m info s' v) count
            ∙ process_download-read_request os s' info (length path) v
            ∙ read_request-serve_named os s' info offset n path b v refl
                (load_offset type offset n path rest b parts ho)
                (load_size type offset n path rest b parts hn)
                (slice_path type offset n path rest b parts some_path) clean,
      )
