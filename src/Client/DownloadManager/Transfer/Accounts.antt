-- ===== src/Client/DownloadManager/Transfer/Accounts.antt =====
-- What the records of a part say of the file, once the transfer of the part has ended.
use cs_network_proj.Base.{
  ℕ, zero, suc, ◌+◌, ◌*◌, ◌≤◌, ◌<◌, ◌≡◌, refl, sym, ap, ◌∙◌, inl, inr, false, Option, none, some,
  ◌++◌, arith, length, take, drop, min, take-append_length, drop-append_length, length-append,
  length-take, append-nil, take_all, u64, ◌==◌, ==_iff, Bool-cases, ltb,
}
use cs_network_proj.Base.Int.{ℤ, pos, negsuc}
use cs_network_proj.Base.Outcome.{
  Cmd, Ensures, Ensures-with, Settles, Settles-next, Settles-mono, Settles-deref,
}
use cs_network_proj.Os.{
  Os, WriteResult, wrote, write_failed, ReadsAtMost, ReadsBlocking, ReadsStream, WritesStream,
  KeepsApart,
}
use cs_network_proj.Util.ByteBuffer.{ByteBuffer, size}
use cs_network_proj.Util.ByteBuffer.Memory.{store_uint, store_ulong}
use cs_network_proj.Util.File.{File, seek, write_file}
use cs_network_proj.Network.Socket.{Socket, read, effective_limit}
use cs_network_proj.Network.Socket.Reads.{IsRead, read-IsRead_all}
use cs_network_proj.Network.Socket.Keeps.{IsSome, read-IsSome, read-keeps}
use cs_network_proj.Client.DownloadManager.{PartStatus}
use cs_network_proj.Client.DownloadManager.Transfer.Pieces.{
  AreApart, IsQuiet, IsPut, IsMoved-add, closed-IsMoved, IsTransferred, IsReady, received_lem,
  received-exact,
}
use cs_network_proj.Client.DownloadManager.Transfer.{
  Transfer, store_part, received, update_status, after_written, after_receive, transfer_loop,
}

module _ (os : Os) (short : ReadsAtMost os) (reads : ReadsStream os) (writes : WritesStream os)
    (apart : KeepsApart os reads writes) (blocking : ReadsBlocking os) where
  open os use {World}
  open reads use {pending}
  open writes use {sent, accepts}

  update_status-IsQuiet :
      (conn : ℕ) (dest : File) (part_file : Option File) (part : PartStatus) (w : World)
      → AreApart dest part_file
      → Ensures
          (λ _ w'. IsQuiet os reads writes conn dest.file w w')
          (update_status os part_file part w)
  unfolding update_status seek write_file store_part store_uint store_ulong
  update_status-IsQuiet conn dest none part w h = (refl, refl)
  update_status-IsQuiet conn dest (some f) part w h =
      let v = os.fseek_set w f.file (u64 (part.id * 32)) in
      (
        apart.write_keeps v f.file _ conn ∙ apart.seek_keeps w f.file _ conn,
        apart.write_apart v f.file dest.file _ h ∙ apart.seek_apart w f.file _ dest.file,
      )

  put_lem :
      (conn dest n : ℕ) (buffer : ByteBuffer) (w w' : World) (r : WriteResult)
      → os.write w dest (take n buffer) ≡ (r, w')
      → IsPut os reads writes conn dest n buffer w r w'
  put_lem conn dest n buffer w w' (wrote m) q = (
    sym (ap (λ x. pending x.1 conn) q) ∙ apart.write_keeps w dest (take n buffer) conn,
    (accepts w w' dest m (take n buffer) q).1,
  )
  put_lem conn dest n buffer w w' (write_failed e) q = tt

  write_file-IsPut :
      (conn : ℕ) (dest : File) (n : ℕ) (buffer : ByteBuffer) (w : World)
      → n ≤ length buffer
      → Ensures (IsPut os reads writes conn dest.file n buffer w) (write_file os dest buffer n w)
  unfolding write_file
  write_file-IsPut conn dest n buffer w h =
      let fits : ltb (size buffer) n ≡ false = ground arith in
      rw fits (put_lem conn dest.file n buffer w _ _ refl)

  -- The rest of a round, once the destination was written: all of the block, or the process ends.
  after_written-Settles :
      (Q : Transfer → World → Type 0) (next : Transfer → Cmd World Transfer) (conn : ℕ)
      (dest : File) (part_file : Option File) (t : Transfer) (buffer : ByteBuffer) (n : ℕ)
      (u v : World) (r : WriteResult)
      → AreApart dest part_file
      → IsPut os reads writes conn dest.file n buffer u r v
      → ((v' : World)
          → pending v' conn ≡ pending u conn
          → sent v' dest.file ≡ sent u dest.file ++ take n buffer
          → Settles Q (next (received t buffer n) v'))
      → Settles Q (after_written os next part_file t buffer n r v)
  after_written-Settles Q next conn dest part_file t buffer n u v (write_failed e) h put goes_on =
      refl
  after_written-Settles Q next conn dest part_file t buffer n u v (wrote m) h (eaten, put) goes_on =
      elim (Bool-cases (m == n)) [
        | inr short ↦ rw short refl
        | inl all ↦
            let same = (==_iff m n).0 all in
            let whole : take m (take n buffer) ≡ take n buffer =
              ap (λ k. take k (take n buffer)) same
              ∙ take_all n (take n buffer) (omega (arith, length-take n buffer)) in
            rw all (
              Settles-next (λ _ v'. IsQuiet os reads writes conn dest.file v v') Q
                (update_status os part_file (received t buffer n).part v)
                (λ _. next (received t buffer n))
                (update_status-IsQuiet conn dest part_file (received t buffer n).part v h)
                λ _ v' (quiet, still).
                  goes_on v' (quiet ∙ eaten) (still ∙ put ∙ ap (λ l. sent u dest.file ++ l) whole))
      ]

  -- A round that was answered, from the state `w` where it began.
  after_receive-Settles :
      (next : Transfer → Cmd World Transfer) (socket : Socket) (dest : File)
      (part_file : Option File) (t : Transfer) (w u : World) (count : ℤ) (buffer : ByteBuffer)
      (limit : ℕ)
      → AreApart dest part_file
      → IsReady os reads writes socket t w
      → IsRead os short reads
          (pending w socket.fd)
          socket.fd
          limit
          (length t.read_buffer)
          (count, buffer)
          u
      → sent u dest.file ≡ sent w dest.file
      → IsSome os blocking count
      → ((t' : Transfer) (v : World)
          → t'.part.rest < t.part.rest
          → IsReady os reads writes socket t' v
          → Settles (IsTransferred os reads writes socket.fd dest.file t' v) (next t' v))
      → Settles
          (IsTransferred os reads writes socket.fd dest.file t w)
          (after_receive os next dest part_file t (count, buffer) u)
  after_receive-Settles next socket dest part_file t w u (negsuc x) buffer limit h ready (same, _)
        still some_read goes_on =
      (0, closed-IsMoved os reads writes socket.fd dest.file t buffer w u same still)
  after_receive-Settles next socket dest part_file t w u (pos n) buffer limit h ready
        (same, (_, within, parts)) still some_read goes_on =
      let P = IsTransferred os reads writes socket.fd dest.file t w in
      let taken : length (take n buffer) ≡ n = omega (arith, length-take n buffer) in
      let whole = ap length parts ∙ length-append (take n buffer) (pending u socket.fd) in
      let few : n ≤ t.part.rest = omega (arith, ready.bounded) in
      let front : take n (pending w socket.fd) ≡ take n buffer =
        ap (take n) parts
        ∙ take-append_length n (take n buffer) (pending u socket.fd) (sym taken) in
      let behind : drop n (pending w socket.fd) ≡ pending u socket.fd =
        ap (drop n) parts
        ∙ drop-append_length n (take n buffer) (pending u socket.fd) (sym taken) in
      let exact = received-exact os reads writes t buffer n few ready.small in
      Settles-next (IsPut os reads writes socket.fd dest.file n buffer u) P
        (write_file os dest buffer n u) (λ r. after_written os next part_file t buffer n r)
        (write_file-IsPut socket.fd dest n buffer u within)
        λ r v put.
          after_written-Settles P next socket.fd dest part_file t buffer n u v r h put
            λ v' eaten stored.
              let left = ap length eaten in
              let ready' : IsReady os reads writes socket (received_lem os reads writes t buffer n)
                  v' =
                record {
                  connected = ready.connected;
                  bounded = omega arith;
                  room = omega (arith, ready.room);
                  small = omega (arith, ready.small);
                } in
              let put' =
                stored
                ∙ ap (λ l. l ++ take n buffer) still
                ∙ ap (λ l. sent w dest.file ++ l) (sym front) in
              rw exact (
                Settles-mono
                  (IsTransferred os reads writes socket.fd dest.file
                    (received_lem os reads writes t buffer n) v')
                  P (next (received_lem os reads writes t buffer n) v')
                  (goes_on (received_lem os reads writes t buffer n) v' (omega arith) ready')
                  λ t' w' (k, m). (
                    n + k,
                    IsMoved-add os reads writes socket.fd dest.file t buffer n k w v' t' w' few same
                        put' (eaten ∙ sym behind) m,
                  ))

  -- The loop over a part, on a connection that waits for data, with more fuel than what is left of
  -- the part. It returns, or a write of the destination that falls short aborts the process. What the part records as done is what was written
  -- behind the destination, in the order of the stream.
  pub transfer_loop-IsTransferred :
      (fuel : ℕ) (socket : Socket) (dest : File) (part_file : Option File) (t : Transfer)
      (w : World)
      → AreApart dest part_file
      → IsReady os reads writes socket t w
      → t.part.rest < fuel
      → Settles
          (IsTransferred os reads writes socket.fd dest.file t w)
          (transfer_loop os fuel dest part_file t w)
  unfolding transfer_loop
  transfer_loop-IsTransferred zero socket dest part_file t w h ready k = absurd (omega arith)
  transfer_loop-IsTransferred (suc fuel) socket dest part_file t w h ready k =
      let P = IsTransferred os reads writes socket.fd dest.file t w in
      let limit = min (size t.read_buffer) t.part.rest in
      let next = transfer_loop os fuel dest part_file in
      elim (Bool-cases (t.part.rest == 0)) [
        | inl finished ↦
            let nothing = (==_iff t.part.rest 0).0 finished in
            rw finished (
              0,
              record {
                within = omega arith;
                left = ap (λ n. record t.part { rest = n }) (omega arith);
                progress = omega arith;
                stored = sym (append-nil (sent w dest.file));
                capacity = refl;
                ends = inr (refl, nothing);
              },
            )
        | inr more ↦ rw more (
            Settles-deref P t.conn_socket socket _ w ready.connected (
              Settles-next _ P (read os socket t.read_buffer limit w)
                (λ answer. after_receive os next dest part_file t answer)
                (Ensures-with
                  (λ answer u.
                    IsRead os short reads (pending w socket.fd) socket.fd
                      (effective_limit t.read_buffer limit) (length t.read_buffer) answer u
                    × IsSome os blocking answer.0)
                  (λ _ u. sent u dest.file ≡ sent w dest.file)
                  (read os socket t.read_buffer limit w)
                  (Ensures-with
                    (IsRead os short reads (pending w socket.fd) socket.fd
                      (effective_limit t.read_buffer limit) (length t.read_buffer))
                    (λ answer _. IsSome os blocking answer.0) (read os socket t.read_buffer limit w)
                    (read-IsRead_all os short reads socket t.read_buffer limit w
                      (omega (arith, ready.bounded, ready.room)))
                    (read-IsSome os blocking socket t.read_buffer limit w))
                  (read-keeps os (λ u. sent u dest.file)
                    (λ u fd count. apart.read_keeps u fd count dest.file) socket t.read_buffer limit
                    w))
                λ (count, buffer) u ((got_it, some_read), still).
                  after_receive-Settles next socket dest part_file t w u count buffer _ h ready
                    got_it still some_read
                    λ t' v less ready'.
                      transfer_loop-IsTransferred fuel socket dest part_file t' v h ready'
                        (omega arith)))
      ]
