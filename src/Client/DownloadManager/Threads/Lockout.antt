-- ===== src/Client/DownloadManager/Threads/Lockout.antt =====
-- What comes of a search under the lock that finds only parts that others have taken.
use cs_network_proj.Base.{
  update-cases, ℕ, ◌≡◌, ◌≢◌, refl, sym, ap, ◌∙◌, inl, inr, true, false, Bool-cases, ◌==◌, ==_iff,
  some, List,
}
use cs_network_proj.Client.DownloadManager.{PartStatus, all_taken, search}
use cs_network_proj.Client.DownloadManager.Threads.{
  Shared, Phase, searching, downloading, Step, acquire, retry, finish, choose, mark, leave,
  progress, stop, enter, give_back, Threads, Move, pick, Reach,
}
use cs_network_proj.Client.DownloadManager.Threads.Phases.{is_inside, AreNumbered}
use cs_network_proj.Client.DownloadManager.Threads.Invariant.{alone, Reach-Inv}

-- Several moves.
pub data Moves (n : ℕ) (s : Threads) : Threads → Type 0 where
  rest : Moves n s s
  move : {s' s'' : Threads} → Moves n s s' → Move n s' s'' → Moves n s s''

-- The thread `t` looks for a part under the lock, all that are left from `k` on are taken, and no
-- thread downloads.
pub record IsLockedOut (t k : ℕ) (m : Shared) (phase : ℕ → Phase) : Type 0 where
  pub here : phase t ≡ searching k
  pub held : m.lock ≡ some t
  pub nothing_free : search m.parts m.taken k ≡ some all_taken
  pub no_other : (u : ℕ) → u ≢ t → is_inside (phase u) ≡ false
  pub no_download : (u i : ℕ) → phase u ≢ downloading i

abbrev pub AsBefore : Shared → (ℕ → Phase) → Shared → (ℕ → Phase) → Type 0
AsBefore m phase m' phase' = (m' ≡ m) × ((u : ℕ) → phase' u ≡ phase u)

module _ {t from : ℕ} {m : Shared} {phase : ℕ → Phase} (out : IsLockedOut t from m phase) where
  open out use {here, held, nothing_free, no_other, no_download}

  -- The thread that looks for a part is the only one under the lock.
  only_searcher : (u : ℕ) (p : Phase) → phase u ≡ p → is_inside p ≡ true → p ≡ searching from
  only_searcher u p h inside = elim (Bool-cases (u == t)) [
    | inl e ↦ sym h ∙ ap phase ((==_iff u t).0 e) ∙ here
    | inr e ↦
        let differ : u ≢ t = λ same. cc (e, (==_iff u t).1 same) in
        absurd (cc (no_other u differ, ap is_inside h, inside))
  ]

  searcher : (u j : ℕ) → phase u ≡ searching j → j ≡ from
  searcher u j h = let same = only_searcher u (searching j) h refl in cc

  Step-AsBefore :
      (u : ℕ) (p : Phase) (m' : Shared) (q : Phase)
      → phase u ≡ p
      → Step u m p m' q
      → (m' ≡ m) × (q ≡ p)
  Step-AsBefore u p m' q at (acquire free) = absurd (cc (free, held))
  Step-AsBefore u p m' q at (retry h) = (refl, refl)
  Step-AsBefore u _ m' q at (finish {k} h) =
      absurd (cc (h, ap (search m.parts m.taken) (searcher u k at), nothing_free))
  Step-AsBefore u _ m' q at (choose {k} h _) =
      absurd (cc (h, ap (search m.parts m.taken) (searcher u k at), nothing_free))
  Step-AsBefore u _ m' q at (leave {i}) = absurd (cc (only_searcher u _ at refl))
  Step-AsBefore u _ m' q at (mark {i} h) = absurd (cc (only_searcher u _ at refl))
  Step-AsBefore u _ m' q at (progress {i} n h) = absurd (no_download u i at)
  Step-AsBefore u _ m' q at (stop {i}) = absurd (no_download u i at)
  Step-AsBefore u p m' q at (enter free) = absurd (cc (free, held))
  Step-AsBefore u _ m' q at (give_back {i} h) = absurd (cc (only_searcher u _ at refl))

  IsLockedOut-AsBefore :
      (m' : Shared) (phase' : ℕ → Phase) → AsBefore m phase m' phase' → IsLockedOut t from m' phase'
  IsLockedOut-AsBefore m' phase' (e, same) = record {
    here = same t ∙ here;
    held = ap (λ (x : Shared). x.lock) e ∙ held;
    nothing_free = ap (λ (x : Shared). search x.parts x.taken from) e ∙ nothing_free;
    no_other = λ u h. ap is_inside (same u) ∙ no_other u h;
    no_download = λ u i h. no_download u i (sym (same u) ∙ h);
  }

Moves-AsBefore :
    {n t k : ℕ} {s s' : Threads}
    → IsLockedOut t k s.shared s.phase
    → Moves n s s'
    → AsBefore s.shared s.phase s'.shared s'.phase
Moves-AsBefore out rest = (refl, λ u. refl)
Moves-AsBefore out (move {s'} ms (pick u {p} {m} {q} lt at step)) =
    let (e, same) = Moves-AsBefore out ms in
    let out' = IsLockedOut-AsBefore out s'.shared s'.phase (e, same) in
    let (f, stays) = Step-AsBefore out' u p m q at step in
    (
      f ∙ e,
      λ v. elim (update-cases s'.phase u q v) [
        | inl (mine, g) ↦ g ∙ stays ∙ sym at ∙ ap s'.phase (sym mine) ∙ same v
        | inr (_, g) ↦ g ∙ same v
      ],
    )

-- Once a thread has looked under the lock and found only parts that are taken, and no thread
-- downloads, no sequence of steps changes anything: it looks again and again, and the others wait
-- for the lock.
pub lockout_stays :
    {n : ℕ} {parts : List PartStatus} {s s' : Threads}
    → AreNumbered parts
    → Reach n parts s
    → (t k : ℕ) → s.phase t ≡ searching k
    → search s.shared.parts s.shared.taken k ≡ some all_taken
    → ((u i : ℕ) → s.phase u ≢ downloading i)
    → Moves n s s'
    → AsBefore s.shared s.phase s'.shared s'.phase
lockout_stays {s} numbers r t k here h quiet ms =
    let inv = Reach-Inv numbers r in
    Moves-AsBefore
      (record {
        here = here;
        held = inv.owner t (ap is_inside here);
        nothing_free = h;
        no_other = λ u other. elim (Bool-cases (is_inside (s.phase u))) [
          | inl e ↦ absurd (alone inv t (ap is_inside here) u other e)
          | inr e ↦ e
        ];
        no_download = quiet;
      })
      ms
