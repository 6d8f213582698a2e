-- ===== src/Client/DownloadManager/Threads/Phases.antt =====
-- What a thread has at each place where it stands, and the numbers of the parts.
use cs_network_proj.Base.{
  ℕ, ◌≡◌, ◌≢◌, refl, sym, ap, ◌∙◌, inl, inr, Bool, true, false, Option, none, some, List, get_elem?,
  Bool-cases, ◌==◌, ==_iff,
}
use cs_network_proj.Client.DownloadManager.{PartStatus}
use cs_network_proj.Client.DownloadManager.Threads.{
  Phase, wants, searching, claiming, chosen, downloading, returning, releasing, ended, replace,
}
use cs_network_proj.Client.DownloadManager.Threads.Lemmas.{
  get_elem?-replace_same, get_elem?-replace_other,
}

-- The index of the part that a thread has taken.
abbrev pub part_of : Phase → Option ℕ
part_of (wants k) = none
part_of (searching k) = none
part_of (claiming i) = none
part_of (chosen i) = some i
part_of (downloading i) = some i
part_of (returning i) = some i
part_of (releasing i) = some i
part_of ended = none

-- Whether a thread is in the section under the lock.
abbrev pub is_inside : Phase → Bool
is_inside (wants k) = false
is_inside (searching k) = true
is_inside (claiming i) = true
is_inside (chosen i) = true
is_inside (downloading i) = false
is_inside (returning i) = false
is_inside (releasing i) = true
is_inside ended = false

-- The index of the part that a thread has found and not yet marked.
abbrev pub target_of : Phase → Option ℕ
target_of (wants k) = none
target_of (searching k) = none
target_of (claiming i) = some i
target_of (chosen i) = none
target_of (downloading i) = none
target_of (returning i) = none
target_of (releasing i) = none
target_of ended = none

pub inside_of_target : (p : Phase) (i : ℕ) → target_of p ≡ some i → is_inside p ≡ true
inside_of_target (wants k) i h = cc
inside_of_target (searching k) i h = refl
inside_of_target (claiming k) i h = refl
inside_of_target (chosen k) i h = refl
inside_of_target (downloading k) i h = cc
inside_of_target (returning k) i h = cc
inside_of_target (releasing k) i h = refl
inside_of_target ended i h = cc

-- A part's number is its index.
abbrev pub AreNumbered : List PartStatus → Type 0
AreNumbered parts = (i : ℕ) (p : PartStatus) → get_elem? parts i ≡ some p → p.id ≡ i

pub AreNumbered-replace :
    (parts : List PartStatus) (i : ℕ) (p : PartStatus) (rest : ℕ)
    → AreNumbered parts
    → get_elem? parts i ≡ some p
    → AreNumbered (replace parts i (record p { rest = rest }))
AreNumbered-replace parts i p rest numbers at j q h = elim (Bool-cases (i == j)) [
  | inl e ↦
      let same = (==_iff i j).0 e in
      let new : some (record p { rest = rest }) ≡ some q =
        sym (get_elem?-replace_same parts i p (record p { rest = rest }) at)
        ∙ ap (get_elem? (replace parts i (record p { rest = rest }))) same
        ∙ h in
      let id : p.id ≡ q.id = cc in sym id ∙ numbers i p at ∙ same
  | inr e ↦
      let differ : i ≢ j = λ same. cc (e, (==_iff i j).1 same) in
      numbers j q (sym (get_elem?-replace_other parts i j (record p { rest = rest }) differ) ∙ h)
]
