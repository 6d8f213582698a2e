-- ===== src/Client/DownloadManager.antt =====
-- src/client/DownloadManager.h and DownloadManager.cpp: the parts of a file, and how a thread looks
-- for the next part to download.
pub mod Tiling
pub mod Searches
pub mod Resume
pub mod Transfer
pub mod Threads
pub mod Alone
use cs_network_proj.Base.{
  ℕ, zero, suc, ◌+◌, ◌-◌, ◌*◌, ◌/◌, Bool, true, false, Option, none, some, List, [], ◌∷◌, ◌++◌,
  length, get_elem?, drop, ltb, leb, ◌==◌, if◌then◌else◌, u32, u64,
}

pub record PartStatus : Type 0 where
  pub id : ℕ
  pub offset : ℕ
  pub rest : ℕ
  pub size : ℕ

-- 64 * 1048576
abbrev pub part_size : ℕ
part_size = 67108864

abbrev pub whole_part : ℕ → ℕ → ℕ → PartStatus
whole_part id offset n = record { id = id; offset = offset; rest = n; size = n }

-- What is left behind the full parts.
abbrev pub last_part : List PartStatus → ℕ → ℕ → ℕ → List PartStatus
last_part parts n_part cur_pos rest =
    if ltb 0 rest then parts ++ whole_part n_part cur_pos rest ∷ [] else parts

-- The loop over the full parts; `none` means that the rounds ran out.
unfoldable pub parts_loop : ℕ → List PartStatus → ℕ → ℕ → ℕ → Option (List PartStatus)
parts_loop zero parts n_part cur_pos rest = none
parts_loop (suc rounds) parts n_part cur_pos rest =
    let others =
      parts_loop rounds (parts ++ whole_part n_part cur_pos part_size ∷ []) (u32 (n_part + 1))
        (u64 (cur_pos + part_size)) (rest - part_size) in
    if leb part_size rest then others else some (last_part parts n_part cur_pos rest)

-- The parts of a new download.
unfoldable pub new_parts : ℕ → Option (List PartStatus)
unfolding parts_loop
new_parts size = parts_loop (suc (size / part_size)) [] 0 0 size

-- What one search under the lock finds: no part is left to download, all that are left are taken,
-- or the part at an index.
pub data Search : Type 0 where
  finished all_taken : Search
  found : ℕ → Search

abbrev pub not_found : Bool → Search
not_found true = finished
not_found false = all_taken

-- The loop over the parts from the index `i` on. A part whose number is outside the table of
-- those that are taken is `none`.
unfoldable pub search_loop : List ℕ → Bool → ℕ → List PartStatus → Option Search
search_loop taken finish i [] = some (not_found finish)
search_loop taken finish i (cur ∷ ps) =
    let next = search_loop taken finish (i + 1) ps in
    let next_taken = search_loop taken false (i + 1) ps in
    if cur.rest == 0 then next else elim (get_elem? taken cur.id) [
      | none ↦ none
      | some flag ↦ if flag == 0 then some (found i) else next_taken
    ]

unfoldable pub search : List PartStatus → List ℕ → ℕ → Option Search
unfolding search_loop
search parts taken start_part = search_loop taken true start_part (drop start_part parts)
