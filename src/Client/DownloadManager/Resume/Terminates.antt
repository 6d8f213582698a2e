-- ===== src/Client/DownloadManager/Resume/Terminates.antt =====
-- `downloadWait` ends, if the threads do.
use cs_network_proj.Base.{
  ℕ, zero, suc, ◌+◌, ◌-◌, ◌*◌, ◌/◌, ◌<◌, ◌≢◌, refl, true, Option, none, some, List, [], ◌∷◌, ◌++◌,
  codes, arith, length, u32, u64,
}
use cs_network_proj.Base.Int.{ℤ, pos, negsuc}
use cs_network_proj.Base.Outcome.{Cmd, Ends, bind-Ends, pure-Ends, deref, deref-Ends, finished}
use cs_network_proj.Os.{Os}
use cs_network_proj.Server.ThreadPool.{pool_size}
use cs_network_proj.Util.ByteBuffer.{ByteBuffer}
use cs_network_proj.Util.File.{
  File, file_of, open_path, get_size, get_real_path, seek, read_file, write_file, allocate, remove,
}
use cs_network_proj.Client.DownloadManager.{
  PartStatus, part_size, whole_part, parts_loop, new_parts,
}
use cs_network_proj.Client.DownloadManager.Transfer.{status_size}
use cs_network_proj.Client.DownloadManager.Resume.{
  store_parts, start_parts, status_path, with_parts, new_download, Download, load_part, done_of,
  next_int, resume_loop, resume, prepare, download_wait,
}

parts_loop-ne-none :
    (rounds : ℕ) (parts : List PartStatus) (n cur rest : ℕ)
    → rest < rounds * part_size
    → parts_loop rounds parts n cur rest ≢ none
unfolding parts_loop
parts_loop-ne-none zero parts n cur rest h = absurd (omega arith)
parts_loop-ne-none (suc rounds) parts n cur rest h =
    let next =
      parts_loop-ne-none rounds (parts ++ whole_part n cur part_size ∷ []) (u32 (n + 1))
        (u64 (cur + part_size)) (rest - part_size) in
    ground (arith, next)

new_parts-ne-none : (size : ℕ) → new_parts size ≢ none
unfolding new_parts
new_parts-ne-none size = parts_loop-ne-none (suc (size / part_size)) [] 0 0 size (omega arith)

module _ (os : Os) where
  open os use {World}

  finished-Ends : {A : Type 0} (o : Option A) → o ≢ none → Ends {W = World} (finished o)
  finished-Ends none h w e = h refl
  finished-Ends (some a) h w e = cc

  read_file-Ends : (f : File) (buffer : ByteBuffer) (n : ℕ) → Ends (read_file os f buffer n)
  unfolding read_file
  read_file-Ends f buffer n w = ground arith

  write_file-Ends : (f : File) (buffer : ByteBuffer) (n : ℕ) → Ends (write_file os f buffer n)
  unfolding write_file
  write_file-Ends f buffer n w = ground arith

  resume_loop-Ends :
      (n : ℕ) (f : File) (i : ℕ) (buffer : ByteBuffer) (parts : List PartStatus) (progress : ℕ)
      → Ends (resume_loop os n f i buffer parts progress)
  unfolding resume_loop seek
  resume_loop-Ends zero f i buffer parts progress w = pure-Ends (parts, progress) w
  resume_loop-Ends (suc n) f i buffer parts progress w =
      bind-Ends (read_file os f buffer status_size) _ (read_file-Ends f buffer status_size)
        (λ (_, buffer').
          bind-Ends (deref (load_part buffer')) _ (deref-Ends (load_part buffer')) λ part.
            bind-Ends (deref (next_int i)) _ (deref-Ends (next_int i)) λ next.
              resume_loop-Ends n f next buffer' (parts ++ part ∷ [])
                (u64 (progress + done_of part)))
        _

  prepare-Ends : (d : Download) (dest : File) (f : Option File) → Ends (prepare os d dest f)
  unfolding prepare resume get_size allocate open_path
  prepare-Ends d dest (some f) w =
      bind-Ends (resume os f) _ (λ w. resume_loop-Ends _ f 0 _ [] 0 _)
        (λ read. pure-Ends (with_parts d f read)) w
  prepare-Ends d dest none w =
      bind-Ends (finished (new_parts d.total_size)) _
        (finished-Ends (new_parts d.total_size) (new_parts-ne-none d.total_size))
        (λ parts v.
          let opening = open_path os (status_path d.dest_path) (codes "wb") in
          bind-Ends opening _ (λ u e. cc)
            (λ answer. bind-Ends (deref (file_of answer)) _ (deref-Ends (file_of answer)) λ f.
              let n = length parts * status_size in
              bind-Ends (write_file os f (store_parts parts) n) _
                (write_file-Ends f (store_parts parts) n)
                λ _. pure-Ends (with_parts d f (parts, 0)))
            v)
        _

  pool_size-Ends : (thread_num : ℤ) → Ends {W = World} (pool_size thread_num)
  pool_size-Ends (pos n) w e = cc
  pool_size-Ends (negsuc n) w e = cc

  -- If all that the threads do ends, `downloadWait` ends.
  pub download_wait-Ends :
      (run : List ℕ → Download → Cmd World Download) (thread_num : ℤ) (src_path : List ℕ)
      (dest : File) (size : ℕ)
      → ((starts : List ℕ) (d : Download) → Ends (run starts d))
      → Ends (download_wait os run thread_num src_path dest size)
  unfolding download_wait get_real_path open_path remove
  download_wait-Ends run thread_num src_path dest size h w =
      let path = os.realpath w dest.path in
      bind-Ends (pool_size thread_num) _ (pool_size-Ends thread_num)
        (λ n_threads.
          bind-Ends (open_path os (status_path path) (codes "r+b")) _ (λ u e. cc)
            (λ opening.
              let d = new_download src_path path size in
              bind-Ends (prepare os d dest (file_of opening)) _
                (prepare-Ends d dest (file_of opening))
                λ d.
                  let starts = start_parts n_threads 0 (length d.parts) n_threads in
                  bind-Ends (run starts d) _ (h starts d) λ d'.
                    bind-Ends (deref d'.part_file) _ (deref-Ends d'.part_file) λ f.
                      bind-Ends (remove os f) _ (λ u e. cc)
                        λ _. pure-Ends (true, record d' { parts = []; part_file = some f })))
        w
