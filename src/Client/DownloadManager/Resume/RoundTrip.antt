-- ===== src/Client/DownloadManager/Resume/RoundTrip.antt =====
-- The resume file gives back the parts that it was written for.
use cs_network_proj.Base.{
  ℕ, ◌+◌, ◌-◌, ◌*◌, ◌/◌, ◌^◌, ◌<◌, ◌≤◌, ◌≡◌, refl, sym, ap, ◌∙◌, some, List, [], ◌∷◌, ◌++◌, arith,
  length, take, drop, u32, u64, replicate, All, append_assoc, append-nil, length-append,
  length-drop, drop-append_length, take-append_length,
}
use cs_network_proj.Base.Outcome.{deref, ◌>>=◌, Ensures, Ensures-bind, Ensures-mono}
use cs_network_proj.Os.{Os, ReadsFile}
use cs_network_proj.Util.ByteBuffer.{ByteBuffer}
use cs_network_proj.Util.ByteBuffer.Memory.{
  load_ulong, store_ulong, store_uint, load_ulong-append, load_ulong-store_ulong,
  load_ulong-store_uint,
}
use cs_network_proj.Util.File.{File, get_size, read_file}
use cs_network_proj.Client.DownloadManager.{PartStatus}
use cs_network_proj.Client.DownloadManager.Transfer.{status_size, store_part}
use cs_network_proj.Client.DownloadManager.Resume.{
  load_part, store_parts, done_of, next_int, resume_loop, resume,
}

-- The fields fit their types, and no more is left of the part than there is.
pub record IsPartStatus (p : PartStatus) : Type 0 where
  pub id_small : p.id < 2 ^ 32
  pub offset_small : p.offset < 2 ^ 64
  pub size_small : p.size < 2 ^ 64
  pub within : p.rest ≤ p.size

load_part_lem :
    (b : ByteBuffer) (p : PartStatus)
    → load_ulong b 0 4 ≡ some p.id
    → load_ulong b 8 8 ≡ some p.offset
    → load_ulong b 16 8 ≡ some p.rest
    → load_ulong b 24 8 ≡ some p.size
    → load_part b ≡ some p
unfolding load_part
load_part_lem b p e f g h = simp (e, f, g, h)

load_part-store_part :
    (p : PartStatus) (behind : ByteBuffer)
    → IsPartStatus p
    → load_part (store_part p ++ behind) ≡ some p
unfolding store_part store_uint store_ulong
load_part-store_part p behind h =
    let front1 = store_uint p.id ++ store_uint 0 in
    let front2 = front1 ++ store_ulong p.offset in
    let front3 = front2 ++ store_ulong p.rest in
    let tail3 = store_ulong p.size ++ behind in
    let tail2 = store_ulong p.rest ++ tail3 in
    let tail1 = store_ulong p.offset ++ tail2 in
    load_part_lem (store_part p ++ behind) p
      (load_ulong-store_uint p.id (store_uint 0 ++ tail1) h.id_small)
      (load_ulong-append front1 tail1 0 8 ∙ load_ulong-store_ulong p.offset tail2 h.offset_small)
      (load_ulong-append front2 tail2 0 8
        ∙ load_ulong-store_ulong p.rest tail3 (omega (arith, h.within, h.size_small)))
      (load_ulong-append front3 tail3 0 8 ∙ load_ulong-store_ulong p.size behind h.size_small)

length-store_part : (p : PartStatus) → length (store_part p) ≡ status_size
unfolding store_part store_uint store_ulong
length-store_part p = refl

length-store_parts : (ps : List PartStatus) → length (store_parts ps) ≡ length ps * status_size
unfolding store_parts
length-store_parts [] = refl
length-store_parts (p ∷ ps) = omega (
  arith,
  length-append (store_part p) (store_parts ps),
  length-store_part p,
  length-store_parts ps,
)

-- What is done of all parts.
unfoldable pub progress_of : List PartStatus → ℕ
progress_of [] = 0
progress_of (p ∷ ps) = p.size - p.rest + progress_of ps

module _ (os : Os) (files : ReadsFile os) where
  open os use {World}
  open files use {content, reads_at, reads_only, size_is, end_keeps, set_keeps}

  -- The file as it was.
  abbrev pub AsBefore : File → World → World → Type 0
  AsBefore f w v = content v f.file ≡ content w f.file

  -- What the read of a part leaves in the buffer.
  abbrev IsPart : File → PartStatus → ByteBuffer → World → ℕ × ByteBuffer → World → Type 0
  IsPart f p buffer w read v = (read.1 ≡ store_part p ++ drop status_size buffer) × AsBefore f w v

  abbrev pub IsRestored : File → List PartStatus → ℕ → World → List PartStatus × ℕ → World → Type 0
  IsRestored f parts progress w read v = (read ≡ (parts, progress)) × AsBefore f w v

  read_file-IsPart :
      (f : File) (at : ℕ) (buffer : ByteBuffer) (p : PartStatus) (pre behind : ByteBuffer)
      (w : World)
      → content w f.file ≡ pre ++ (store_part p ++ behind)
      → length pre ≡ at
      → length buffer ≡ status_size
      → Ensures (IsPart f p buffer w) (read_file os f buffer status_size (os.fseek_set w f.file at))
  unfolding read_file
  read_file-IsPart f at buffer p pre behind w c l b =
      let there : drop at (content w f.file) ≡ store_part p ++ behind =
        ap (drop at) c ∙ drop-append_length at pre (store_part p ++ behind) (sym l) in
      let block : (os.fread (os.fseek_set w f.file at) f.file status_size).0 ≡ store_part p =
        reads_at w f.file at status_size
        ∙ ap (take status_size) there
        ∙ take-append_length status_size (store_part p) behind (sym (length-store_part p)) in
      rw (b, block, length-store_part p) (refl, reads_only w f.file at status_size)

  -- The parts behind the place `i`, of a file that holds them there.
  resume_loop_lem :
      (ps : List PartStatus) (f : File) (i : ℕ) (buffer : ByteBuffer) (parts : List PartStatus)
      (progress : ℕ) (pre : ByteBuffer) (w : World)
      → All IsPartStatus ps
      → content w f.file ≡ pre ++ store_parts ps
      → length pre ≡ i * status_size
      → length buffer ≡ status_size
      → i + length ps < 2 ^ 31
      → progress + progress_of ps < 2 ^ 64
      → Ensures
          (IsRestored f (parts ++ ps) (progress + progress_of ps) w)
          (resume_loop os (length ps) f i buffer parts progress w)
  unfolding resume_loop progress_of store_parts
  resume_loop_lem [] f i buffer parts progress pre w h c l b k m =
      let whole = append-nil parts in
      let none_done : progress + 0 ≡ progress = omega arith in rw (whole, none_done) (refl, refl)
  resume_loop_lem (p ∷ ps) f i buffer parts progress pre w (good, h) c l b k m =
      let at : u64 (i * status_size) ≡ i * status_size = omega (arith, k) in
      let now : u64 (progress + done_of p) ≡ progress + (p.size - p.rest) =
        omega (arith, m, good.within, good.size_small) in
      let Q = IsRestored f (parts ++ p ∷ ps) (progress + progress_of (p ∷ ps)) w in
      let whole = append_assoc parts (p ∷ []) ps in
      let sum : progress + (p.size - p.rest) + progress_of ps
          ≡ progress + (p.size - p.rest + progress_of ps) =
        omega arith in
      rw at (
        Ensures-bind (IsPart f p buffer w) Q
          (read_file os f buffer status_size (os.fseek_set w f.file (i * status_size)))
          (λ (_, buffer'). deref (load_part buffer') >>= λ part. deref (next_int i) >>= λ next.
            resume_loop os (length ps) f next buffer' (parts ++ part ∷ [])
              (u64 (progress + done_of part)))
          (read_file-IsPart f (i * status_size) buffer p pre (store_parts ps) w c l b)
          λ (n, buffer') v (e, same).
            let counted : next_int i ≡ some (i + 1) = ground (arith, k) in
            let loaded : load_part buffer' ≡ some p =
              ap load_part e ∙ load_part-store_part p (drop status_size buffer) good in
            let full : length buffer' ≡ status_size = omega (
              arith,
              ap length e,
              length-append (store_part p) (drop status_size buffer),
              length-store_part p,
              length-drop status_size buffer,
            ) in
            let next =
              resume_loop_lem ps f (i + 1) buffer' (parts ++ p ∷ []) (progress + (p.size - p.rest))
                (pre ++ store_part p) v h
                (same ∙ c ∙ sym (append_assoc pre (store_part p) (store_parts ps)))
                (omega (arith, l, length-append pre (store_part p), length-store_part p)) full
                (omega (arith, k)) (omega (arith, m)) in
            rw (loaded, counted, now)
              (Ensures-mono
                (IsRestored f ((parts ++ p ∷ []) ++ ps)
                  (progress + (p.size - p.rest) + progress_of ps) v)
                Q
                (resume_loop os (length ps) f (i + 1) buffer' (parts ++ p ∷ [])
                  (progress + (p.size - p.rest)) v)
                next λ read u (r, still). (rw (← whole, ← sum) r, still ∙ same)))

  -- The parts of a resume file that was written for them are read back, in their order, with the
  -- progress that they stand for. The bounds keep the counter of the loop, an `int`, and the sums in
  -- their types.
  pub resume-store_parts :
      (parts : List PartStatus) (f : File) (w : World)
      → All IsPartStatus parts
      → content w f.file ≡ store_parts parts
      → length parts < 2 ^ 31
      → progress_of parts < 2 ^ 64
      → Ensures (IsRestored f parts (progress_of parts) w) (resume os f w)
  unfolding resume get_size
  resume-store_parts parts f w h c few small =
      let size : os.ftell (os.fseek_end w f.file) f.file ≡ length parts * status_size =
        size_is w f.file ∙ ap length c ∙ length-store_parts parts in
      let count : u32 (length parts * status_size / status_size) ≡ length parts =
        omega (arith, few) in
      let still = set_keeps (os.fseek_end w f.file) f.file 0 ∙ end_keeps w f.file in
      let all_done : 0 + progress_of parts ≡ progress_of parts = omega arith in
      rw (size, count)
        (Ensures-mono _ (IsRestored f parts (progress_of parts) w)
          (resume_loop os (length parts) f 0 (replicate status_size 0) [] 0
            (os.fseek_set (os.fseek_end w f.file) f.file 0))
          (resume_loop_lem parts f 0 (replicate status_size 0) [] 0 [] _ h (still ∙ c) refl refl
            (omega arith) (omega arith))
          λ read v (r, same). (r ∙ ap (λ n. (parts, n)) all_done, same ∙ still))
