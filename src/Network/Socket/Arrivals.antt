-- ===== src/Network/Socket/Arrivals.antt =====
-- What `Socket::read` returns when all that is to come has arrived.
use cs_network_proj.Base.{
  ℕ, zero, suc, ◌+◌, ◌-◌, ◌≤◌, ◌<◌, ◌≡◌, sym, ap, ◌∙◌, subst, inl, inr, true, false, List, [], ◌∷◌,
  ◌++◌, arith, length, take, drop, min, length-take, length-drop, take-append_length,
  drop-append_length, take-append-drop, append_assoc, take_all, drop_all, leb, ltb, Bool-cases,
}
use cs_network_proj.Base.Int.{ℤ, pos}
use cs_network_proj.Base.Outcome.{Cmd, Ensures, Ensures-mono}
use cs_network_proj.Os.{Os, got, ReadsArrived}
use cs_network_proj.Util.ByteBuffer.{ByteBuffer, size}
use cs_network_proj.Network.Memory.{overlay}
use cs_network_proj.Network.Socket.{Socket, read_unit, after_read, read_loop, read, effective_limit}
use cs_network_proj.Network.Socket.Reads.{length-overlay, take-overlay}

module _ (os : Os) (arrived : ReadsArrived os) where
  open os use {World}
  open arrived use {pending, gives}

  -- The buffer has `chunk` behind its first `n` bytes, and `rest` is still to be read.
  abbrev pub IsFilled : ℕ → ℕ → ByteBuffer → ℕ → List ℕ → List ℕ → ℤ × ByteBuffer → World → Type 0
  IsFilled fd limit buffer n chunk rest (count, buffer') w =
      (count ≡ pos limit)
      × (length buffer' ≡ length buffer)
      × (take limit buffer' ≡ take n buffer ++ chunk)
      × (pending w fd ≡ rest)

  -- The last round.
  last_round-IsFilled :
      (fd limit : ℕ) (next : ByteBuffer → ℕ → Cmd World (ℤ × ByteBuffer)) (buffer : ByteBuffer)
      (n b : ℕ) (bs rest : List ℕ) (w : World)
      → n + length (b ∷ bs) ≡ limit
      → limit ≤ length buffer
      → pending w fd ≡ rest
      → Ensures
          (IsFilled fd limit buffer n (b ∷ bs) rest)
          (after_read os limit next buffer n (got (b ∷ bs)) w)
  last_round-IsFilled fd limit next buffer n b bs rest w all room e =
      let block : List ℕ = b ∷ bs in
      let same = length-overlay buffer n block (omega arith) in
      let holds =
        ap (λ k. take k (overlay buffer n block)) (sym all)
        ∙ take-overlay buffer n block (omega arith) in
      let fits : ltb (size buffer) (n + length block) ≡ false = ground arith in
      let full : leb limit (n + length block) ≡ true = ground arith in
      rw (fits, full) (ap pos all, same, holds, e)

  -- A round that others follow.
  round-IsFilled :
      (fd limit : ℕ) (next : ByteBuffer → ℕ → Cmd World (ℤ × ByteBuffer)) (buffer : ByteBuffer)
      (n b : ℕ) (bs chunk rest : List ℕ) (w : World)
      → n + length (b ∷ bs) < limit
      → limit ≤ length buffer
      → (length (overlay buffer n (b ∷ bs)) ≡ length buffer
          → Ensures
              (IsFilled fd limit (overlay buffer n (b ∷ bs)) (n + length (b ∷ bs)) chunk rest)
              (next (overlay buffer n (b ∷ bs)) (n + length (b ∷ bs)) w))
      → Ensures
          (IsFilled fd limit buffer n ((b ∷ bs) ++ chunk) rest)
          (after_read os limit next buffer n (got (b ∷ bs)) w)
  round-IsFilled fd limit next buffer n b bs chunk rest w less room goes_on =
      let block : List ℕ = b ∷ bs in
      let same = length-overlay buffer n block (omega arith) in
      let stored = take-overlay buffer n block (omega arith) in
      let fits : ltb (size buffer) (n + length block) ≡ false = ground arith in
      let more : leb limit (n + length block) ≡ false = ground arith in
      rw (fits, more)
        (Ensures-mono (IsFilled fd limit (overlay buffer n block) (n + length block) chunk rest)
          (IsFilled fd limit buffer n (block ++ chunk) rest) _ (goes_on same)
          λ (count, buffer') w' (e, same', holds, left). (
            e,
            same' ∙ same,
            holds ∙ ap (λ l. l ++ chunk) stored ∙ append_assoc (take n buffer) block chunk,
            left,
          ))

  -- Rounds until the last byte that is there.
  read_loop-IsFilled :
      (fuel : ℕ) (socket : Socket) (limit : ℕ) (buffer : ByteBuffer) (n : ℕ) (chunk : List ℕ)
      (w : World)
      → limit < fuel + n
      → n + length chunk ≡ limit
      → 0 < length chunk
      → limit ≤ length buffer
      → pending w socket.fd ≡ chunk
      → Ensures
          (IsFilled socket.fd limit buffer n chunk [])
          (read_loop os fuel socket limit buffer n w)
  unfolding read_loop
  read_loop-IsFilled zero socket limit buffer n chunk w h all some_left room e =
      absurd (omega arith)
  read_loop-IsFilled (suc fuel) socket limit buffer n [] w h all some_left room e =
      absurd (omega arith)
  read_loop-IsFilled (suc fuel) socket limit buffer n (b ∷ bs) w h all some_left room e =
      let count = min limit read_unit in
      let k = count - 1 in
      let count_k : count ≡ suc k = omega arith in
      let (w', q, left) = gives w socket.fd count b bs (omega arith) e in
      let q' : os.read w socket.fd count ≡ (got (b ∷ take k bs), w') =
        q ∙ ap (λ j. (got (take j (b ∷ bs)), w')) count_k in
      let left' : pending w' socket.fd ≡ drop k bs = left ∙ ap (λ j. drop j (b ∷ bs)) count_k in
      let joined : (b ∷ take k bs) ++ drop k bs ≡ b ∷ bs =
        ap (λ l. b ∷ l) (take-append-drop k bs) in
      let taken = length-take k bs in
      let dropped = length-drop k bs in
      rw q' (elim (Bool-cases (leb (length bs) k)) [
        | inl short ↦
            let whole : take k bs ≡ bs = take_all k bs (ground arith) in
            let none_left : drop k bs ≡ [] = drop_all k bs (ground arith) in
            rw whole (
              last_round-IsFilled socket.fd limit (read_loop os fuel socket limit) buffer n b bs []
                w' all room (left' ∙ none_left))
        | inr long ↦
            let behind : k < length bs = ground arith in
            subst
              (λ l. Ensures (IsFilled socket.fd limit buffer n l []) (
                after_read os limit (read_loop os fuel socket limit) buffer n (got (b ∷ take k bs))
                  w'))
              joined
              (round-IsFilled socket.fd limit (read_loop os fuel socket limit) buffer n b
                (take k bs) (drop k bs) [] w' (omega arith) room
                λ same.
                  read_loop-IsFilled fuel socket limit (overlay buffer n (b ∷ take k bs))
                    (n + length (b ∷ take k bs)) (drop k bs) w' (omega arith) (omega arith)
                    (omega arith) (omega arith) left')
      ])

  limit-effective :
      (buffer : ByteBuffer) (limit : ℕ)
      → 0 < limit
      → limit ≤ length buffer
      → effective_limit buffer limit ≡ limit
  limit-effective buffer limit h room = ground arith

  -- A read of all that is there.
  pub read-IsFilled :
      (socket : Socket) (buffer : ByteBuffer) (chunk : List ℕ) (w : World)
      → 0 < length chunk
      → length chunk ≤ length buffer
      → pending w socket.fd ≡ chunk
      → Ensures
          (IsFilled socket.fd (length chunk) buffer 0 chunk [])
          (read os socket buffer (length chunk) w)
  unfolding read
  read-IsFilled socket buffer chunk w some_left room e =
      rw (limit-effective buffer (length chunk) some_left room) (
        read_loop-IsFilled (suc (length chunk)) socket (length chunk) buffer 0 chunk w (omega arith)
          (omega arith) some_left room e)

  -- A read that one call serves, with more behind it.
  pub read-IsFilled_once :
      (socket : Socket) (buffer : ByteBuffer) (chunk rest : List ℕ) (w : World)
      → 0 < length chunk
      → length chunk ≤ read_unit
      → length chunk ≤ length buffer
      → pending w socket.fd ≡ chunk ++ rest
      → Ensures
          (IsFilled socket.fd (length chunk) buffer 0 chunk rest)
          (read os socket buffer (length chunk) w)
  unfolding read read_loop
  read-IsFilled_once socket buffer [] rest w some_left few room e = absurd (omega arith)
  read-IsFilled_once socket buffer (b ∷ bs) rest w some_left few room e =
      let limit = length (b ∷ bs) in
      let count = min limit read_unit in
      let count_all : count ≡ limit = omega arith in
      let (w', q, left) = gives w socket.fd count b (bs ++ rest) (omega arith) e in
      let front : take count (b ∷ (bs ++ rest)) ≡ b ∷ bs =
        take-append_length count (b ∷ bs) rest count_all in
      let behind : drop count (b ∷ (bs ++ rest)) ≡ rest =
        drop-append_length count (b ∷ bs) rest count_all in
      let q' : os.read w socket.fd count ≡ (got (b ∷ bs), w') = q ∙ ap (λ l. (got l, w')) front in
      rw (limit-effective buffer limit some_left room, q')
        (last_round-IsFilled socket.fd limit (read_loop os limit socket limit) buffer 0 b bs rest w'
          (omega arith) room (left ∙ behind))
