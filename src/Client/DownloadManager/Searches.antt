-- ===== src/Client/DownloadManager/Searches.antt =====
-- What a thread finds when it looks for a part.
use cs_network_proj.Base.{
  ℕ, ◌+◌, ◌≡◌, ◌≢◌, refl, ap, ◌∙◌, ◌⊎◌, inl, inr, Bool, true, false, some, List, [], ◌∷◌, ◌++◌,
  arith, length, get_elem?, drop, All, Bool-cases, ◌==◌, ==_iff,
}
use cs_network_proj.Client.DownloadManager.{
  PartStatus, Search, finished, all_taken, found, search_loop, search,
}

abbrev pub IsDone : PartStatus → Type 0
IsDone p = p.rest ≡ 0

-- The table has an entry for the part.
abbrev pub HasFlag : List ℕ → PartStatus → Type 0
HasFlag taken p = (flag : ℕ) × (get_elem? taken p.id ≡ some flag)

abbrev pub IsUnavailable : List ℕ → PartStatus → Type 0
IsUnavailable taken p = IsDone p ⊎ ((flag : ℕ) × (get_elem? taken p.id ≡ some flag) × (flag ≢ 0))

abbrev pub IsAvailable : List ℕ → PartStatus → Type 0
IsAvailable taken p = (p.rest ≢ 0) × (get_elem? taken p.id ≡ some 0)

-- What a result says of the parts that were looked at, of which the first has the index `i`. The
-- flag is whether no part before them was left.
abbrev pub Finds : List ℕ → Bool → ℕ → List PartStatus → Search → Type 0
Finds taken finish i ps finished = (finish ≡ true) × All IsDone ps
Finds taken finish i ps all_taken = All (IsUnavailable taken) ps × (finish ≡ true → ¬ All IsDone ps)
Finds taken finish i ps (found j) =
    (before : List PartStatus) × (p : PartStatus) × (after : List PartStatus) × (ps
      ≡ before ++ p ∷ after)
    × (j ≡ i + length before)
    × All (IsUnavailable taken) before
    × IsAvailable taken p

-- One more part in front, which is done, or is taken.
Finds-done :
    (taken : List ℕ) (finish : Bool) (i : ℕ) (p : PartStatus) (ps : List PartStatus) (r : Search)
    → IsDone p
    → Finds taken finish (i + 1) ps r
    → Finds taken finish i (p ∷ ps) r
Finds-done taken finish i p ps finished h (e, all) = (e, (h, all))
Finds-done taken finish i p ps all_taken h (all, some_left) =
    ((inl h, all), λ e done_so. some_left e done_so.1)
Finds-done taken finish i p ps (found j) h (before, q, after, e, at, all, here) =
    (p ∷ before, q, after, ap (λ l. p ∷ l) e, omega arith, (inl h, all), here)

Finds-taken :
    (taken : List ℕ) (finish : Bool) (i : ℕ) (p : PartStatus) (ps : List PartStatus) (r : Search)
    (flag : ℕ)
    → p.rest ≢ 0
    → get_elem? taken p.id ≡ some flag
    → flag ≢ 0
    → Finds taken false (i + 1) ps r
    → Finds taken finish i (p ∷ ps) r
Finds-taken taken finish i p ps finished flag h k f (e, all) = cc
Finds-taken taken finish i p ps all_taken flag h k f (all, some_left) =
    ((inr (flag, k, f), all), λ e done_so. h done_so.0)
Finds-taken taken finish i p ps (found j) flag h k f (before, q, after, e, at, all, here) =
    (p ∷ before, q, after, ap (λ l. p ∷ l) e, omega arith, (inr (flag, k, f), all), here)

search_loop-Finds :
    (taken : List ℕ) (finish : Bool) (i : ℕ) (ps : List PartStatus)
    → All (HasFlag taken) ps
    → (r : Search) × (search_loop taken finish i ps ≡ some r) × Finds taken finish i ps r
unfolding search_loop
search_loop-Finds taken true i [] h = (finished, refl, (refl, tt))
search_loop-Finds taken false i [] h = (all_taken, refl, (tt, λ e. cc))
search_loop-Finds taken finish i (p ∷ ps) ((flag, k), h) =
    let (r, e, finds) = search_loop-Finds taken finish (i + 1) ps h in
    let (r', e', finds') = search_loop-Finds taken false (i + 1) ps h in
    elim (Bool-cases (p.rest == 0)) [
      | inl nothing ↦
          rw nothing (r, e, Finds-done taken finish i p ps r ((==_iff p.rest 0).0 nothing) finds)
      | inr left ↦
          let some_left : p.rest ≢ 0 = λ z. cc (left, (==_iff p.rest 0).1 z) in
          elim (Bool-cases (flag == 0)) [
            | inl free ↦
                let here = k ∙ ap some ((==_iff flag 0).0 free) in
                rw (left, k, free)
                  (found i, refl, ([], p, ps, refl, omega arith, tt, (some_left, here)))
            | inr used ↦
                let busy : flag ≢ 0 = λ z. cc (used, (==_iff flag 0).1 z) in
                rw (left, k, used)
                  (r', e', Finds-taken taken finish i p ps r' flag some_left k busy finds')
          ]
    ]

-- A search of parts that all have an entry in the table has a result. It finds the first part from
-- the thread's start on that is unfinished and not taken; or it says that all from there on are
-- finished; or they are finished or taken, and not all are finished. It says nothing of the parts
-- before the start.
pub search-Finds :
    (parts : List PartStatus) (taken : List ℕ) (start_part : ℕ)
    → All (HasFlag taken) (drop start_part parts)
    → (r : Search) × (search parts taken start_part ≡ some r)
      × Finds taken true start_part (drop start_part parts) r
unfolding search
search-Finds parts taken start_part h =
    search_loop-Finds taken true start_part (drop start_part parts) h
