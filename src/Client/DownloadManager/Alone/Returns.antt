-- ===== src/Client/DownloadManager/Alone/Returns.antt =====
-- What a thread leaves that downloads alone.
use cs_network_proj.Base.{
  ℕ, zero, suc, ◌+◌, ◌≡◌, ◌≢◌, refl, ap, ◌∙◌, inl, inr, Bool, true, false, Bool-cases, Option-cases,
  Option, none, some, List, [], ◌∷◌, drop, length, get_elem?, All, ◌==◌, ==_iff,
}
use cs_network_proj.Base.Outcome.{done, fault, Cmd, Holds, Holds-mono, Holds-bind}
use cs_network_proj.Os.{Os}
use cs_network_proj.Util.File.{File}
use cs_network_proj.Network.Endpoints.{connect}
use cs_network_proj.Client.DownloadManager.{
  PartStatus, Search, finished, all_taken, found, search_loop, search,
}
use cs_network_proj.Client.DownloadManager.Searches.{IsDone, IsAvailable}
use cs_network_proj.Client.DownloadManager.Transfer.{Transfer, download_part}
use cs_network_proj.Client.DownloadManager.Threads.{replace}
use cs_network_proj.Client.DownloadManager.Threads.Lemmas.{search-IsAvailable}
use cs_network_proj.Client.DownloadManager.Alone.{
  Task, Downloader, transfer_of, after_part, connected, after_search, parts_rounds,
}

search_loop-ne-finished :
    (taken : List ℕ) (i : ℕ) (ps : List PartStatus) → search_loop taken false i ps ≢ some finished
unfolding search_loop
search_loop-ne-finished taken i [] h = cc
search_loop-ne-finished taken i (p ∷ ps) h =
    let next = search_loop-ne-finished taken (i + 1) ps in
    elim (Bool-cases (p.rest == 0)) [
      | inl nothing ↦ next (rw nothing at h)
      | inr left ↦ elim (Option-cases (get_elem? taken p.id)) [
        | inl outside ↦ let e : none ≡ some finished = rw (left, outside) at h in cc
        | inr (flag, k) ↦ elim (Bool-cases (flag == 0)) [
          | inl free ↦ let e : some (found i) ≡ some finished = rw (left, k, free) at h in cc
          | inr used ↦ next (rw (left, k, used) at h)
        ]
      ]
    ]

-- A search that finds nothing left has looked at finished parts alone.
search_loop-finished :
    (taken : List ℕ) (finish : Bool) (i : ℕ) (ps : List PartStatus)
    → search_loop taken finish i ps ≡ some finished
    → All IsDone ps
unfolding search_loop
search_loop-finished taken finish i [] h = tt
search_loop-finished taken finish i (p ∷ ps) h = elim (Bool-cases (p.rest == 0)) [
  | inl nothing ↦
      ((==_iff p.rest 0).0 nothing, search_loop-finished taken finish (i + 1) ps (rw nothing at h))
  | inr left ↦ elim (Option-cases (get_elem? taken p.id)) [
    | inl outside ↦ let e : none ≡ some finished = rw (left, outside) at h in cc
    | inr (flag, k) ↦ elim (Bool-cases (flag == 0)) [
      | inl free ↦ let e : some (found i) ≡ some finished = rw (left, k, free) at h in cc
      | inr used ↦ absurd (search_loop-ne-finished taken (i + 1) ps (rw (left, k, used) at h))
    ]
  ]
]

module _ {A : Type 0} where
  replace_back :
      (xs : List A) (i : ℕ) (x y : A) → get_elem? xs i ≡ some x → replace (replace xs i y) i x ≡ xs
  unfolding replace
  replace_back [] i x y h = refl
  replace_back (z ∷ xs) zero x y h = cc
  replace_back (z ∷ xs) (suc i) x y h = ap (λ r. z ∷ r) (replace_back xs i x y h)

  length-replace : (xs : List A) (i : ℕ) (y : A) → length (replace xs i y) ≡ length xs
  unfolding replace
  length-replace [] i y = refl
  length-replace (z ∷ xs) zero y = refl
  length-replace (z ∷ xs) (suc i) y = ap suc (length-replace xs i y)

module _ (os : Os) (task : Task) where
  open os use {World}

  -- The parts from where the thread looked last are finished, there are as many as before, and the
  -- table of those that are taken is as before.
  abbrev pub IsOver : Downloader → Downloader → World → Type 0
  IsOver d d' w =
      All IsDone (drop d'.start_part d'.parts)
      × (length d'.parts ≡ length d.parts)
      × (d'.taken ≡ d.taken)

  IsOver-after_part :
      (d d' : Downloader) (i : ℕ) (part : PartStatus) (t : Transfer) (w : World)
      → IsAvailable d.taken part
      → IsOver (after_part d i part t) d' w
      → IsOver d d' w
  IsOver-after_part d d' i part t w (left, free) (all, count, table) =
      (all, count ∙ length-replace d.parts i t.part, table ∙ replace_back d.taken part.id 0 1 free)

  module _ (next : Downloader → Cmd World Downloader)
      (goes_on : (d : Downloader) (w : World) → Holds (IsOver d) (next d w)) where
    found-IsOver :
        (fuel : ℕ) (dest : Option File) (d : Downloader) (i : ℕ) (o : Option PartStatus) (w : World)
        → get_elem? d.parts i ≡ o
        → search d.parts d.taken d.start_part ≡ some (found i)
        → Holds (IsOver d) (after_search os task next fuel dest d (some (found i)) w)
    found-IsOver fuel dest d i none w at e = rw at tt
    found-IsOver fuel dest d i (some part) w at e =
        let free = search-IsAvailable d.parts d.taken d.start_part i part e at in
        rw at (
          Holds-bind (IsOver d) (connected os task d.conn_socket w) _ λ socket v.
            Holds-bind (IsOver d)
              (download_part os fuel task.src_path dest task.part_file (transfer_of d part socket)
                v)
              _
              λ t u.
                Holds-mono (IsOver (after_part d i part t)) (IsOver d)
                  (next (after_part d i part t) u) (goes_on (after_part d i part t) u)
                  (λ d' w' over. IsOver-after_part d d' i part t w' free over))

    after_search-IsOver :
        (fuel : ℕ) (dest : Option File) (d : Downloader) (r : Option Search) (w : World)
        → search d.parts d.taken d.start_part ≡ r
        → Holds (IsOver d) (after_search os task next fuel dest d r w)
    unfolding search
    after_search-IsOver fuel dest d none w e = tt
    after_search-IsOver fuel dest d (some finished) w e =
        (search_loop-finished d.taken true d.start_part (drop d.start_part d.parts) e, refl, refl)
    after_search-IsOver fuel dest d (some all_taken) w e = tt
    after_search-IsOver fuel dest d (some (found i)) w e =
        found-IsOver fuel dest d i (get_elem? d.parts i) w refl e

  -- When a thread returns that has downloaded alone, the parts from where it looked last are
  -- finished, there are as many parts as before, and no other part is taken than before.
  pub parts_rounds-IsOver :
      (rounds fuel : ℕ) (dest : Option File) (d : Downloader) (w : World)
      → Holds (IsOver d) (parts_rounds os task rounds fuel dest d w)
  unfolding parts_rounds
  parts_rounds-IsOver zero fuel dest d w = tt
  parts_rounds-IsOver (suc rounds) fuel dest d w =
      after_search-IsOver (parts_rounds os task rounds fuel dest)
        (λ d' w'. parts_rounds-IsOver rounds fuel dest d' w') fuel dest d
        (search d.parts d.taken d.start_part) w refl

  -- A thread that has found a part and has no connection uses a null pointer if none can be made.
  pub parts_rounds-unconnected :
      (rounds fuel : ℕ) (dest : Option File) (d : Downloader) (i : ℕ) (part : PartStatus)
      (w w' : World)
      → search d.parts d.taken d.start_part ≡ some (found i)
      → get_elem? d.parts i ≡ some part
      → d.conn_socket ≡ none
      → connect os task.srv_address task.srv_port w ≡ done none w'
      → parts_rounds os task (suc rounds) fuel dest d w ≡ fault
  unfolding parts_rounds download_part
  parts_rounds-unconnected rounds fuel dest d i part w w' e at alone failed =
      rw (e, after_search, at, alone, connected, failed) refl
