-- ===== src/Client/DownloadManager/Threads.antt =====
-- DownloadManager.cpp: `DownloadThread::run` of several threads, whose steps come in any order. The
-- threads share the parts and the table of those that are taken, and a lock for the table.
pub mod Phases
pub mod Invariant
pub mod Lemmas
pub mod Claims
pub mod Lockout
use cs_network_proj.Base.{
  ℕ, zero, suc, ◌+◌, ◌%◌, ◌<◌, ◌≡◌, Option, none, some, List, [], ◌∷◌, length, replicate, get_elem?,
  update,
}
use cs_network_proj.Client.DownloadManager.{PartStatus, finished, all_taken, found, search}
use cs_network_proj.Client.DownloadManager.Resume.{start_part_of}

-- What the threads share, with the thread that holds `partsLock`.
pub record Shared : Type 0 where
  pub parts : List PartStatus
  pub taken : List ℕ
  pub lock : Option ℕ

-- Where a thread stands: before the first lock, with where it will start to look; in the section
-- under it, where it looks; there, with the index of the part that it has found and is to mark;
-- there, with that of its part, which it has marked; in `downloadPart`; before the second lock; in
-- the section under it; returned.
pub data Phase : Type 0 where
  wants searching claiming chosen downloading returning releasing : ℕ → Phase
  ended : Phase

-- An element in place of another.
unfoldable pub replace : {A : Type 0} → List A → ℕ → A → List A
replace [] i y = []
replace (x ∷ xs) zero y = y ∷ xs
replace (x ∷ xs) (suc i) y = x ∷ replace xs i y

-- One step of the thread `t`. It looks for a part in one step and marks it in another, and steps of
-- other threads may come between the two, as they may between taking a lock and the write under it:
-- what keeps them off is the lock alone. A part may take any rest while it is downloaded.
pub data Step (t : ℕ) (m : Shared) : Phase → Shared → Phase → Type 0 where
  acquire : {k : ℕ} → m.lock ≡ none → Step t m (wants k) (record m { lock = some t }) (searching k)
  retry :
      {k : ℕ} → search m.parts m.taken k ≡ some all_taken → Step t m (searching k) m (searching k)
  finish :
      {k : ℕ}
      → search m.parts m.taken k ≡ some finished
      → Step t m (searching k) (record m { lock = none }) ended
  choose :
      {k i : ℕ} {p : PartStatus}
      → search m.parts m.taken k ≡ some (found i)
      → get_elem? m.parts i ≡ some p
      → Step t m (searching k) m (claiming i)
  mark :
      {i : ℕ} {p : PartStatus}
      → get_elem? m.parts i ≡ some p
      → Step t m (claiming i) (record m { taken = replace m.taken p.id 1 }) (chosen i)
  leave : {i : ℕ} → Step t m (chosen i) (record m { lock = none }) (downloading i)
  progress :
      {i : ℕ} {p : PartStatus} (rest : ℕ)
      → get_elem? m.parts i ≡ some p
      → Step t m
          (downloading i)
          (record m { parts = replace m.parts i (record p { rest = rest }) })
          (downloading i)
  stop : {i : ℕ} → Step t m (downloading i) m (returning i)
  enter :
      {i : ℕ} → m.lock ≡ none → Step t m (returning i) (record m { lock = some t }) (releasing i)
  give_back :
      {i : ℕ} {p : PartStatus}
      → get_elem? m.parts i ≡ some p
      → Step t m
          (releasing i)
          (record m { taken = replace m.taken p.id 0; lock = none })
          (wants ((p.id + 1) % length m.parts))

pub record Threads : Type 0 where
  pub shared : Shared
  pub phase : ℕ → Phase

-- A step of one of `n` threads.
pub data Move (n : ℕ) (s : Threads) : Threads → Type 0 where
  pick :
      (t : ℕ) {p : Phase} {m : Shared} {q : Phase}
      → t < n
      → s.phase t ≡ p
      → Step t s.shared p m q
      → Move n s (record { shared = m; phase = update s.phase t q })

-- The threads when they are started.
abbrev pub first : ℕ → List PartStatus → Threads
first n parts = record {
  shared = record { parts = parts; taken = replicate (length parts) 0; lock = none };
  phase = λ t. wants (start_part_of t (length parts) n);
}

pub data Reach (n : ℕ) (parts : List PartStatus) : Threads → Type 0 where
  start : Reach n parts (first n parts)
  later : {s s' : Threads} → Reach n parts s → Move n s s' → Reach n parts s'
