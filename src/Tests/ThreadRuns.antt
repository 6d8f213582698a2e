-- ===== src/Tests/ThreadRuns.antt =====
-- Two threads and a file of one part: the first has lost its connection, the second looks for a part.
use cs_network_proj.Base.{
  update, ℕ, zero, suc, ◌≡◌, ◌≢◌, refl, List, [], ◌∷◌, Bool-cases, inl, inr, ◌==◌, arith,
}
use cs_network_proj.Client.DownloadManager.{PartStatus, whole_part, search_loop, search}
use cs_network_proj.Client.DownloadManager.Threads.{
  downloading, searching, chosen, replace, acquire, choose, mark, leave, progress, stop, retry,
  Threads, Reach, start, later, pick,
}
use cs_network_proj.Client.DownloadManager.Threads.Phases.{AreNumbered}
use cs_network_proj.Client.DownloadManager.Threads.Invariant.{no_part_twice}
use cs_network_proj.Client.DownloadManager.Threads.Claims.{Claim, pool_of, Move-Claim}
use cs_network_proj.Client.DownloadManager.Threads.Lockout.{rest, move, AsBefore, lockout_stays}

abbrev one_part : List PartStatus
one_part = whole_part 0 0 40 ∷ []

one_part-AreNumbered : AreNumbered one_part
one_part-AreNumbered zero p h = cc
one_part-AreNumbered (suc i) p h = cc

-- A state with the steps that lead to it.
record Run : Type 0 where
  last : Threads
  reach : Reach 2 one_part last

-- The first thread has the lock, then finds the part, then marks it.
unfoldable searched : Run
unfolding search search_loop
searched = record {
  last = _;
  reach =
      later (later start (pick 0 (omega arith) refl (acquire refl)))
        (pick 0 (omega arith) refl (choose {i = 0} refl refl));
}

unfoldable claimed : Run
unfolding searched replace
claimed = record { last = _; reach = later searched.reach (pick 0 (omega arith) refl (mark refl)) }

-- It downloads ten bytes; then the connection breaks, and the second thread has the lock before it.
unfoldable locked_out : Run
unfolding claimed searched replace
locked_out =
    let loaded =
      later (later claimed.reach (pick 0 (omega arith) refl leave))
        (pick 0 (omega arith) refl (progress 30 refl)) in
    record {
      last = _;
      reach =
          later (later loaded (pick 0 (omega arith) refl stop))
            (pick 1 (omega arith) refl (acquire refl));
    }

no_part_twice_example : ◌≡◌ {A = ℕ} 0 0
unfolding claimed searched
no_part_twice_example = no_part_twice one_part-AreNumbered claimed.reach 0 0 0 refl refl

Move-Claim_example :
    Claim (pool_of searched.last.phase) (pool_of (update searched.last.phase 0 (chosen 0)))
unfolding searched
Move-Claim_example =
    Move-Claim {n = 2} {parts = one_part} one_part-AreNumbered searched.reach
      (pick 0 (omega arith) refl (mark refl))

quiet : (u i : ℕ) → locked_out.last.phase u ≢ downloading i
unfolding locked_out claimed searched
quiet u i = elim (Bool-cases (u == 1)) [
  | inl e ↦ rw e (λ h. cc)
  | inr e ↦ elim (Bool-cases (u == 0)) [ inl z ↦ rw (e, z) (λ h. cc) | inr n ↦ rw (e, n) (λ h. cc) ]
]

lockout_stays_example :
    AsBefore locked_out.last.shared locked_out.last.phase locked_out.last.shared
      (update locked_out.last.phase 1 (searching 0))
unfolding locked_out claimed searched search search_loop replace
lockout_stays_example =
    lockout_stays one_part-AreNumbered locked_out.reach 1 0 refl refl quiet
      (move rest (pick 1 (omega arith) refl (retry refl)))
