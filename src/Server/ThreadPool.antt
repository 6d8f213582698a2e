-- ===== src/Server/ThreadPool.antt =====
-- src/server/Thread.h, Thread.cpp and ThreadPool.hpp. What the threads run is in the modules of
-- their subclasses.
pub mod Signals
use cs_network_proj.Base.{
  zero, suc, ◌+◌, ◌/◌, ◌%◌, ◌++◌, ltb, codes, ℕ, Bool, true, false, List, [], ◌∷◌, ◌==◌,
  if◌then◌else◌, not,
}
use cs_network_proj.Base.Int.{ℤ, pos, negsuc}
use cs_network_proj.Base.Outcome.{aborted, exited, done, Cmd, pure, ◌>>=◌}
use cs_network_proj.Os.{Os}

pub record Thread : Type 0 where
  pub handle : ℕ
  pub name : List ℕ

-- std::to_string
unfoldable pub decimal : ℕ → ℕ → List ℕ
decimal zero n = []
decimal (suc fuel) n =
    let front = decimal fuel (n / 10) in
    if ltb n 10 then (48 + n) ∷ [] else front ++ (48 + n % 10) ∷ []

abbrev pub new_thread : List ℕ → Thread
new_thread name = record { handle = 0; name = name }

-- The threads of a new pool from the index `i` on.
unfoldable pub pool_from : List ℕ → ℕ → ℕ → List Thread
unfolding decimal
pool_from name i zero = []
pool_from name i (suc n) =
    new_thread (name ++ (codes "#" ++ decimal (suc i) i)) ∷ pool_from name (i + 1) n

unfoldable pub new_pool : List ℕ → ℕ → List Thread
unfolding pool_from
new_pool name n = pool_from name 0 n

-- The threads of a new pool, of which a negative number is a length that no vector has: `resize`
-- throws, and nothing catches it.
abbrev pub pool_size : {W : Type 0} → ℤ → Cmd W ℕ
pool_size (pos n) = pure n
pool_size (negsuc n) = λ w. exited aborted

module _ (os : Os) where
  open os use {World}

  unfoldable pub start_thread : Thread → Cmd World (Bool × Thread)
  start_thread t w =
      let (code, handle, w') = os.pthread_create w in
      done (code == 0, record t { handle = handle }) w'

  unfoldable pub join_thread : Thread → Cmd World Bool
  join_thread t w = let (code, w') = os.pthread_join w t.handle in done (not (code == 0)) w'

  -- The threads behind one that does not start are left as they were.
  abbrev pub after_start :
      Thread → List Thread → Cmd World (Bool × List Thread) → Bool → Cmd World (Bool × List Thread)
  after_start t ts next false = pure (false, t ∷ ts)
  after_start t ts next true = do (all, ts') ← next; pure (all, t ∷ ts')

  unfoldable pub start_all : List Thread → Cmd World (Bool × List Thread)
  unfolding start_thread
  start_all [] = pure (true, [])
  start_all (t ∷ ts) = do (started, t') ← start_thread t; after_start t' ts (start_all ts) started

  -- Every thread is joined, whatever the others' results.
  unfoldable pub join_all_from : Bool → List Thread → Cmd World Bool
  unfolding join_thread
  join_all_from so_far [] = pure so_far
  join_all_from so_far (t ∷ ts) = do
    joined ← join_thread t
    join_all_from (if joined then so_far else false) ts

  unfoldable pub join_all : List Thread → Cmd World Bool
  unfolding join_all_from
  join_all = join_all_from true

  -- The loop over the pool, which leaves the calling thread out and remembers it.
  unfoldable pub kill_others : ℕ → Bool → List Thread → World → Bool × World
  kill_others self suicide [] w = (suicide, w)
  kill_others self suicide (t ∷ ts) w =
      kill_others self (if self == t.handle then true else suicide) ts
        (if self == t.handle then w else os.pthread_kill w t.handle)

  unfoldable pub kill : List Thread → Cmd World (Unit {0})
  unfolding kill_others
  kill threads w =
      let self = os.pthread_self w in
      let (suicide, w') = kill_others self false threads w in
      done tt (if suicide then os.pthread_kill w' self else w')
