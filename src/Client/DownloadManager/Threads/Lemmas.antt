-- ===== src/Client/DownloadManager/Threads/Lemmas.antt =====
-- What a thread finds is free, and what changes when one entry of a list or of a family changes.
use cs_network_proj.Base.{
  ℕ, zero, suc, ◌+◌, ◌≡◌, ◌≢◌, refl, ap, ◌∙◌, inl, inr, Bool, true, false, Bool-cases, Option-cases,
  subst, Option, none, some, List, [], ◌∷◌, arith, drop, get_elem?, ◌==◌, ==_iff,
}
use cs_network_proj.Client.DownloadManager.{
  PartStatus, Search, finished, all_taken, found, search_loop, search,
}
use cs_network_proj.Client.DownloadManager.Searches.{IsAvailable}
use cs_network_proj.Client.DownloadManager.Threads.{replace}

module _ {A : Type 0} where
  pub get_elem?-replace_same :
      (xs : List A) (i : ℕ) (x y : A)
      → get_elem? xs i ≡ some x
      → get_elem? (replace xs i y) i ≡ some y
  unfolding replace
  get_elem?-replace_same [] i x y h = cc
  get_elem?-replace_same (z ∷ xs) zero x y h = refl
  get_elem?-replace_same (z ∷ xs) (suc i) x y h = get_elem?-replace_same xs i x y h

  pub get_elem?-replace_other :
      (xs : List A) (i j : ℕ) (y : A) → i ≢ j → get_elem? (replace xs i y) j ≡ get_elem? xs j
  unfolding replace
  get_elem?-replace_other [] i j y h = refl
  get_elem?-replace_other (z ∷ xs) zero zero y h = absurd (h refl)
  get_elem?-replace_other (z ∷ xs) zero (suc j) y h = refl
  get_elem?-replace_other (z ∷ xs) (suc i) zero y h = refl
  get_elem?-replace_other (z ∷ xs) (suc i) (suc j) y h =
      get_elem?-replace_other xs i j y (λ e. h (ap suc e))

-- The part that a search finds.
abbrev pub FoundAt : List ℕ → ℕ → List PartStatus → ℕ → Type 0
FoundAt taken i ps j =
    (n : ℕ) × (p : PartStatus) × (j ≡ i + n) × (get_elem? ps n ≡ some p) × IsAvailable taken p

abbrev IsFound : List ℕ → ℕ → List PartStatus → Option Search → Type 0
IsFound taken i ps none = Unit
IsFound taken i ps (some finished) = Unit
IsFound taken i ps (some all_taken) = Unit
IsFound taken i ps (some (found j)) = FoundAt taken i ps j

IsFound-next :
    (taken : List ℕ) (i : ℕ) (p : PartStatus) (ps : List PartStatus) (r : Option Search)
    → IsFound taken (i + 1) ps r
    → IsFound taken i (p ∷ ps) r
IsFound-next taken i p ps none h = tt
IsFound-next taken i p ps (some finished) h = tt
IsFound-next taken i p ps (some all_taken) h = tt
IsFound-next taken i p ps (some (found j)) (n, q, e, at, free) = (suc n, q, omega arith, at, free)

search_loop-IsFound :
    (taken : List ℕ) (finish : Bool) (i : ℕ) (ps : List PartStatus)
    → IsFound taken i ps (search_loop taken finish i ps)
unfolding search_loop
search_loop-IsFound taken true i [] = tt
search_loop-IsFound taken false i [] = tt
search_loop-IsFound taken finish i (p ∷ ps) =
    let next =
      IsFound-next taken i p ps (search_loop taken finish (i + 1) ps)
        (search_loop-IsFound taken finish (i + 1) ps) in
    let next_taken =
      IsFound-next taken i p ps (search_loop taken false (i + 1) ps)
        (search_loop-IsFound taken false (i + 1) ps) in
    elim (Bool-cases (p.rest == 0)) [
      | inl nothing ↦ rw nothing next
      | inr left ↦ elim (Option-cases (get_elem? taken p.id)) [
        | inl outside ↦ rw (left, outside) tt
        | inr (flag, k) ↦ elim (Bool-cases (flag == 0)) [
          | inr used ↦ rw (left, k, used) next_taken
          | inl free ↦
              rw (left, k, free)
                (
                  0,
                  p,
                  omega arith,
                  refl,
                  (λ z. cc (left, (==_iff p.rest 0).1 z), k ∙ ap some ((==_iff flag 0).0 free)),
                )
        ]
      ]
    ]

get_elem?-drop :
    {A : Type 0} (xs : List A) (k n : ℕ) → get_elem? (drop k xs) n ≡ get_elem? xs (k + n)
get_elem?-drop xs zero n = ap (get_elem? xs) (omega arith)
get_elem?-drop [] (suc k) n = refl
get_elem?-drop (x ∷ xs) (suc k) n =
    let next : suc k + n ≡ suc (k + n) = omega arith in rw next (get_elem?-drop xs k n)

-- The part at the index that a search finds is not finished and not taken.
pub search-IsAvailable :
    (parts : List PartStatus) (taken : List ℕ) (k i : ℕ) (p : PartStatus)
    → search parts taken k ≡ some (found i)
    → get_elem? parts i ≡ some p
    → IsAvailable taken p
unfolding search
search-IsAvailable parts taken k i p h at =
    let (n, q, e, there, free) : FoundAt taken k (drop k parts) i =
      subst (IsFound taken k (drop k parts)) h (search_loop-IsFound taken true k (drop k parts)) in
    let same : q ≡ p = cc (there, get_elem?-drop parts k n, ap (get_elem? parts) e, at) in
    subst (IsAvailable taken) same free
