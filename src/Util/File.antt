-- ===== src/Util/File.antt =====
-- src/util/File.h and File.cpp: an open stdio file and the path it was opened by.
use cs_network_proj.Base.{
  Bool, Option, none, some, not, ℕ, List, [], length, take, min, ltb, ◌==◌, if◌then◌else◌,
}
use cs_network_proj.Base.Outcome.{done, fault, Cmd}
use cs_network_proj.Os.{Os, Errno, OpenResult, opened, open_failed, WriteResult}
use cs_network_proj.Util.ByteBuffer.{ByteBuffer, size}
use cs_network_proj.Network.Memory.{overlay}

pub record File : Type 0 where
  pub file : ℕ
  pub path : List ℕ

-- A null pointer, with what `errno` says, or a file.
pub data Opening : Type 0 where
  open_file : File → Opening
  no_file : Errno → Opening

-- The pointer, which may be null.
abbrev pub file_of : Opening → Option File
file_of (open_file f) = some f
file_of (no_file e) = none

abbrev pub with_path : List ℕ → OpenResult → Opening
with_path path (opened file) = open_file (record { file = file; path = path })
with_path path (open_failed e) = no_file e

module _ (os : Os) where
  open os use {World}

  unfoldable pub open_path : List ℕ → List ℕ → Cmd World Opening
  open_path path mode w = let (r, w') = os.fopen w path mode in done (with_path path r) w'

  unfoldable pub open_command : List ℕ → List ℕ → Cmd World Opening
  open_command command mode w = let (r, w') = os.popen w command mode in done (with_path [] r) w'

  unfoldable pub get_size : File → Cmd World ℕ
  get_size f w =
      let at_end = os.fseek_end w f.file in
      done (os.ftell at_end f.file) (os.fseek_set at_end f.file 0)

  unfoldable pub seek : File → ℕ → Cmd World (Unit {0})
  seek f at w = done tt (os.fseek_set w f.file at)

  -- The count of an empty limit is the size of the buffer. `fread` fills the front of the buffer.
  unfoldable pub read_file : File → ByteBuffer → ℕ → Cmd World (ℕ × ByteBuffer)
  read_file f buffer limit w =
      let least = min limit (size buffer) in
      let count = if least == 0 then size buffer else least in
      let (block, w') = os.fread w f.file count in
      if ltb (size buffer) (length block)
      then fault
      else done (length block, overlay buffer 0 block) w'

  -- One call of `write` on the descriptor, from the front of the buffer.
  unfoldable pub write_file : File → ByteBuffer → ℕ → Cmd World WriteResult
  write_file f buffer n w =
      if ltb (size buffer) n
      then fault
      else (let (r, w') = os.write w f.file (take n buffer) in done r w')

  unfoldable pub get_real_path : File → Cmd World (List ℕ)
  get_real_path f w = done (os.realpath w f.path) w

  -- The result is that the call failed.
  unfoldable pub allocate : File → ℕ → ℕ → Cmd World Bool
  allocate f len offset w =
      let (code, w') = os.fallocate w f.file offset len in done (not (code == 0)) w'

  unfoldable pub remove : File → Cmd World Bool
  remove f w = let (code, w') = os.remove w (os.realpath w f.path) in done (code == 0) w'
