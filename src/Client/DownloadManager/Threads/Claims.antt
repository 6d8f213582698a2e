-- ===== src/Client/DownloadManager/Threads/Claims.antt =====
-- The threads against a pool of parts in which a thread claims a part that nobody has, and gives it
-- back. The lock, the table and the progress are not seen there.
use cs_network_proj.Base.{
  update, update-cases, update_same, update_other, ℕ, ◌≡◌, ◌≢◌, refl, sym, ap, ◌∙◌, inl, inr,
  Option, none, some, List,
}
use cs_network_proj.Client.DownloadManager.{PartStatus}
use cs_network_proj.Client.DownloadManager.Threads.{
  Shared, Phase, Step, acquire, retry, finish, choose, mark, leave, progress, stop, enter,
  give_back, Threads, Move, pick, Reach,
}
use cs_network_proj.Client.DownloadManager.Threads.Phases.{part_of, target_of, AreNumbered}
use cs_network_proj.Client.DownloadManager.Threads.Invariant.{Inv, target-IsNew, Reach-Inv}

-- Which part each thread has claimed.
abbrev pub Pool : Type 0
Pool = ℕ → Option ℕ

abbrev SameBut : ℕ → Pool → Pool → Type 0
SameBut t pool pool' = (u : ℕ) → u ≢ t → pool' u ≡ pool u

-- A step of the pool, or none.
pub data Claim (pool pool' : Pool) : Type 0 where
  nothing : ((u : ℕ) → pool' u ≡ pool u) → Claim pool pool'
  claim :
      (t i : ℕ)
      → pool t ≡ none
      → ((u : ℕ) → pool u ≢ some i)
      → pool' t ≡ some i
      → SameBut t pool pool'
      → Claim pool pool'
  release : (t i : ℕ) → pool t ≡ some i → pool' t ≡ none → SameBut t pool pool' → Claim pool pool'

abbrev pub pool_of : (ℕ → Phase) → Pool
pool_of phase u = part_of (phase u)

module _ {m : Shared} {phase : ℕ → Phase} (inv : Inv m phase) (t : ℕ) where
  same_but : (q : Phase) → SameBut t (pool_of phase) (pool_of (update phase t q))
  same_but q u other = ap part_of (update_other phase t q u other)

  now : (q : Phase) → part_of (update phase t q t) ≡ part_of q
  now q = ap part_of (update_same phase t q)

  same_all :
      (q : Phase)
      → part_of (phase t) ≡ part_of q
      → (u : ℕ) → part_of (update phase t q u) ≡ part_of (phase u)
  same_all q h u = elim (update-cases phase t q u) [
    | inl (same, e) ↦ ap part_of e ∙ sym h ∙ ap (λ v. part_of (phase v)) (sym same)
    | inr (_, e) ↦ ap part_of e
  ]

  Step-Claim :
      (p : Phase) (m' : Shared) (q : Phase)
      → phase t ≡ p
      → Step t m p m' q
      → Claim (pool_of phase) (pool_of (update phase t q))
  Step-Claim _ m' q here (mark {i} at) =
      claim t i (ap part_of here) (λ u e. target-IsNew inv t i (ap target_of here) u i e refl)
        (now q) (same_but q)
  Step-Claim p m' q here (give_back {i} at) = release t i (ap part_of here) (now q) (same_but q)
  Step-Claim p m' q here (acquire free) = nothing (same_all q (ap part_of here))
  Step-Claim p m' q here (retry h) = nothing (same_all q (ap part_of here))
  Step-Claim p m' q here (finish h) = nothing (same_all q (ap part_of here))
  Step-Claim p m' q here (choose h at) = nothing (same_all q (ap part_of here))
  Step-Claim p m' q here (enter free) = nothing (same_all q (ap part_of here))
  Step-Claim p m' q here leave = nothing (same_all q (ap part_of here))
  Step-Claim p m' q here (progress rest at) = nothing (same_all q (ap part_of here))
  Step-Claim p m' q here stop = nothing (same_all q (ap part_of here))

-- Each step of the threads is a step of the pool or changes nothing there: a thread that claims a
-- part has none, and no thread has that part. The parts are numbered by their places.
pub Move-Claim :
    {n : ℕ} {parts : List PartStatus} {s s' : Threads}
    → AreNumbered parts
    → Reach n parts s
    → Move n s s'
    → Claim (pool_of s.phase) (pool_of s'.phase)
Move-Claim numbers r (pick t {p} {m} {q} lt here step) =
    Step-Claim (Reach-Inv numbers r) t p m q here step
