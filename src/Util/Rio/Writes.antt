-- ===== src/Util/Rio/Writes.antt =====
-- What `rio_writen` sends and returns.
use cs_network_proj.Base.{
  ℕ, zero, suc, ◌<◌, ◌≡◌, refl, sym, ap, ◌∙◌, ◌⊎◌, inl, inr, List, [], ◌∷◌, ◌++◌, arith, length,
  take, drop, length-append, length-drop, take-append_length, drop-append_length, append_assoc,
  append-nil, take-append-drop,
}
use cs_network_proj.Base.Outcome.{Cmd, Ensures}
use cs_network_proj.Os.{Os, Errno, WriteResult, wrote, write_failed, WritesStream}
use cs_network_proj.Util.Rio.{after_write, writen_loop, rio_writen}

module _ (os : Os) (stream : WritesStream os) where
  open os use {World}
  open stream use {sent, accepts, refuses}

  -- The system was given `rest`, and took nothing of it.
  abbrev pub IsRefused : ℕ → List ℕ → World → Type 0
  IsRefused fd rest w =
      (v : World) × (r : WriteResult) × (os.write v fd rest ≡ (r, w))
      × ((r ≡ wrote 0) ⊎ ((e : Errno) × (r ≡ write_failed e)))

  -- A proper prefix of the block went out behind `before`, and the system took nothing of the rest.
  abbrev pub IsCut : ℕ → List ℕ → List ℕ → World → Type 0
  IsCut fd before block w =
      (k : ℕ) × (k < length block)
      × (sent w fd ≡ before ++ take k block)
      × IsRefused fd (drop k block) w

  -- All of the block went out behind `before`, and the count is its length; or the count is 0 and
  -- the block was cut.
  abbrev pub IsWritten : ℕ → List ℕ → List ℕ → ℕ → World → Type 0
  IsWritten fd before block n w =
      ((n ≡ length block) × (sent w fd ≡ before ++ block)) ⊎ ((n ≡ 0) × IsCut fd before block w)

  -- `first` of the block is out and `left` is not.
  record IsAhead (fd : ℕ) (before block left : List ℕ) (w : World) : Type 0 where
    first : List ℕ
    parts : block ≡ first ++ left
    out : sent w fd ≡ before ++ first

  IsAhead-stop :
      (fd : ℕ) (before block left : List ℕ) (w w' : World) (r : WriteResult)
      → IsAhead fd before block left w
      → 0 < length left
      → sent w' fd ≡ sent w fd
      → os.write w fd left ≡ (r, w')
      → (r ≡ wrote 0) ⊎ ((e : Errno) × (r ≡ write_failed e))
      → IsWritten fd before block 0 w'
  IsAhead-stop fd before block left w w' r ahead some_left same q nothing =
      let front : take (length ahead.first) block ≡ ahead.first =
        ap (take (length ahead.first)) ahead.parts ∙ take-append_length _ ahead.first left refl in
      let whole = ap length ahead.parts ∙ length-append ahead.first left in
      let rest : drop (length ahead.first) block ≡ left =
        ap (drop (length ahead.first)) ahead.parts ∙ drop-append_length _ ahead.first left refl in
      inr (
        refl,
        (
          length ahead.first,
          omega arith,
          same ∙ ahead.out ∙ ap (λ l. before ++ l) (sym front),
          (w, r, ap (os.write w fd) rest ∙ q, nothing),
        ),
      )

  IsAhead-next :
      (fd : ℕ) (before block left : List ℕ) (w w' : World) (n : ℕ)
      → IsAhead fd before block left w
      → sent w' fd ≡ sent w fd ++ take n left
      → IsAhead fd before block (drop n left) w'
  IsAhead-next fd before block left w w' n ahead e = record {
    first = ahead.first ++ take n left;
    parts =
        ahead.parts
        ∙ ap (λ l. ahead.first ++ l) (sym (take-append-drop n left))
        ∙ sym (append_assoc ahead.first (take n left) (drop n left));
    out = e ∙ ap (λ l. l ++ take n left) ahead.out ∙ append_assoc before ahead.first (take n left);
  }

  after_write-IsWritten :
      (fd : ℕ) (before block left : List ℕ) (next : List ℕ → Cmd World ℕ) (w w' : World)
      (r : WriteResult)
      → os.write w fd left ≡ (r, w')
      → 0 < length left
      → IsAhead fd before block left w
      → ((left' : List ℕ)
          → length left' < length left
          → IsAhead fd before block left' w'
          → Ensures (IsWritten fd before block) (next left' w'))
      → Ensures (IsWritten fd before block) (after_write os next left r w')
  after_write-IsWritten fd before block left next w w' (write_failed e) q some_left ahead goes_on =
      IsAhead-stop fd before block left w w' (write_failed e) ahead some_left
        (refuses w w' fd left e q) q (inr (e, refl))
  after_write-IsWritten fd before block left next w w' (wrote zero) q some_left ahead goes_on =
      IsAhead-stop fd before block left w w' (wrote zero) ahead some_left
        ((accepts w w' fd zero left q).1 ∙ append-nil (sent w fd)) q (inl refl)
  after_write-IsWritten fd before block left next w w' (wrote (suc n)) q some_left ahead goes_on =
      let (most, e) = accepts w w' fd (suc n) left q in
      let ahead' = IsAhead-next fd before block left w w' (suc n) ahead e in
      let shorter = length-drop (suc n) left in
      ground (arith, most, goes_on (drop (suc n) left) (omega arith) ahead')

  writen_loop-IsWritten :
      (fuel fd : ℕ) (before block left : List ℕ) (w : World)
      → length left < fuel
      → IsAhead fd before block left w
      → Ensures (IsWritten fd before block) (writen_loop os fuel fd (length block) left w)
  unfolding writen_loop
  writen_loop-IsWritten zero fd before block left w h ahead = absurd (omega arith)
  writen_loop-IsWritten (suc fuel) fd before block [] w h ahead =
      inl (refl, ahead.out ∙ ap (λ l. before ++ l) (sym (ahead.parts ∙ append-nil ahead.first)))
  writen_loop-IsWritten (suc fuel) fd before block (b ∷ bs) w h ahead =
      after_write-IsWritten fd before block (b ∷ bs) (writen_loop os fuel fd (length block)) w _ _
        refl (omega arith) ahead
        λ left' shorter ahead'.
          writen_loop-IsWritten fuel fd before block left' _ (omega arith) ahead'

  -- `rio_writen` is all or nothing in what it says: it returns the length of the block once all of
  -- it is written; else 0, a proper prefix is written, and the system, which was given exactly the
  -- rest, took nothing of it.
  pub rio_writen-IsWritten :
      (fd : ℕ) (block : List ℕ) (w : World)
      → Ensures (IsWritten fd (sent w fd) block) (rio_writen os fd block w)
  unfolding rio_writen
  rio_writen-IsWritten fd block w =
      writen_loop-IsWritten (suc (length block)) fd (sent w fd) block block w (omega arith)
        (record { first = []; parts = refl; out = sym (append-nil (sent w fd)) })
