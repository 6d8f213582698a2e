-- ===== src/Client/DownloadManager/Resume.antt =====
-- DownloadManager.cpp: `downloadWait`, and the file in which a broken download leaves its parts.
pub mod RoundTrip
pub mod Terminates
use cs_network_proj.Base.{
  ℕ, zero, suc, ◌+◌, ◌-◌, ◌*◌, ◌/◌, ◌^◌, Bool, true, false, Option, none, some, List, [], ◌∷◌, ◌++◌,
  length, replicate, u32, u64, codes, ltb, if◌then◌else◌,
}
use cs_network_proj.Base.Int.{ℤ}
use cs_network_proj.Base.Outcome.{Cmd, pure, deref, finished, ◌>>=◌, ◌>>◌}
use cs_network_proj.Os.{Os}
use cs_network_proj.Server.ThreadPool.{pool_size}
use cs_network_proj.Util.ByteBuffer.{ByteBuffer, ◌>>=◌ as ◌>>=?◌}
use cs_network_proj.Util.ByteBuffer.Memory.{load_ulong}
use cs_network_proj.Util.File.{
  File, Opening, file_of, open_path, get_size, seek, read_file, write_file, allocate, remove,
  get_real_path,
}
use cs_network_proj.Client.DownloadManager.{PartStatus, new_parts}
use cs_network_proj.Client.DownloadManager.Transfer.{status_size, store_part}

-- The state of the manager while a file is downloaded.
pub record Download : Type 0 where
  pub parts : List PartStatus
  pub taken : List ℕ
  pub src_path : List ℕ
  pub dest_path : List ℕ
  pub part_file : Option File
  pub total_progress : ℕ
  pub total_size : ℕ

-- A part that stands at the front of a buffer.
unfoldable pub load_part : ByteBuffer → Option PartStatus
load_part b = load_ulong b 0 4 >>=? λ id. load_ulong b 8 8 >>=? λ offset.
    load_ulong b 16 8 >>=? λ rest. load_ulong b 24 8 >>=? λ size.
    some (record { id = id; offset = offset; rest = rest; size = size })

unfoldable pub store_parts : List PartStatus → ByteBuffer
unfolding store_part
store_parts [] = []
store_parts (p ∷ ps) = store_part p ++ store_parts ps

-- The name of the resume file.
abbrev pub status_path : List ℕ → List ℕ
status_path path = path ++ codes ".dlinfo"

-- What is done of a part, as the code computes it.
abbrev pub done_of : PartStatus → ℕ
done_of p = u64 (p.size + 2 ^ 64 - p.rest)

-- Where a thread starts to look for a part.
abbrev pub start_part_of : ℕ → ℕ → ℕ → ℕ
start_part_of i n_part n_threads = u32 (i * n_part) / n_threads

-- The same of all threads from the number `i` on.
unfoldable pub start_parts : ℕ → ℕ → ℕ → ℕ → List ℕ
start_parts zero i n_part n_threads = []
start_parts (suc n) i n_part n_threads =
    start_part_of i n_part n_threads ∷ start_parts n (i + 1) n_part n_threads

abbrev pub with_parts : Download → File → List PartStatus × ℕ → Download
with_parts d f (parts, progress) = record d {
  parts = parts;
  taken = replicate (length parts) 0;
  part_file = some f;
  total_progress = progress;
}

-- The state of the manager before the parts are known.
abbrev pub new_download : List ℕ → List ℕ → ℕ → Download
new_download src_path dest_path size = record {
  parts = [];
  taken = [];
  src_path = src_path;
  dest_path = dest_path;
  part_file = none;
  total_progress = 0;
  total_size = size;
}

-- The counter of the loop is an `int`, which may not be counted past its greatest value.
abbrev pub next_int : ℕ → Option ℕ
next_int i = if ltb (i + 1) (2 ^ 31) then some (i + 1) else none

module _ (os : Os) where
  open os use {World}

  -- The parts of a resume file from the number `i` on, and the progress that they stand for.
  unfoldable pub resume_loop :
      ℕ → File → ℕ → ByteBuffer → List PartStatus → ℕ → Cmd World (List PartStatus × ℕ)
  unfolding seek read_file load_part load_ulong
  resume_loop zero f i buffer parts progress = pure (parts, progress)
  resume_loop (suc n) f i buffer parts progress = do
    seek os f (u64 (i * status_size))
    (_, buffer) ← read_file os f buffer status_size
    part ← deref (load_part buffer)
    next ← deref (next_int i)
    resume_loop n f next buffer (parts ++ part ∷ []) (u64 (progress + done_of part))

  -- The parts of a broken download.
  unfoldable pub resume : File → Cmd World (List PartStatus × ℕ)
  unfolding get_size resume_loop
  resume f = do
    n ← get_size os f
    resume_loop (u32 (n / status_size)) f 0 (replicate status_size 0) [] 0

  -- A resume file that was opened is read; else the file is divided anew and a resume file is made.
  -- That it may not have been opened is not tested.
  unfoldable pub prepare : Download → File → Option File → Cmd World Download
  unfolding resume allocate new_parts open_path write_file store_parts
  prepare d dest (some f) = do read ← resume f; pure (with_parts d f read)
  prepare d dest none = do
    _ ← allocate os dest d.total_size 0
    parts ← finished (new_parts d.total_size)
    opening ← open_path os (status_path d.dest_path) (codes "wb")
    f ← deref (file_of opening)
    _ ← write_file os f (store_parts parts) (length parts * status_size)
    pure (with_parts d f (parts, 0))

  -- DownloadManager::downloadWait, where `run` is what the threads have done until they are joined,
  -- from where each starts to look. The results of `start` and `joinAll` change nothing.
  unfoldable pub download_wait :
      (List ℕ → Download → Cmd World Download) → ℤ → List ℕ → File → ℕ → Cmd World (Bool × Download)
  unfolding get_real_path open_path prepare start_parts remove
  download_wait run thread_num src_path dest size = do
    dest_path ← get_real_path os dest
    n_threads ← pool_size thread_num
    opening ← open_path os (status_path dest_path) (codes "r+b")
    d ← prepare (new_download src_path dest_path size) dest (file_of opening)
    d' ← run (start_parts n_threads 0 (length d.parts) n_threads) d
    f ← deref d'.part_file
    _ ← remove os f
    pure (true, record d' { parts = []; part_file = some f })
