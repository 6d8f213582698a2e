-- ===== src/Client/DownloadManager/Threads/Invariant.antt =====
-- What holds of the threads, the lock and the table of the parts that are taken.
use cs_network_proj.Base.{
  update, update-cases, ℕ, ◌≡◌, ◌≢◌, refl, sym, ap, ◌∙◌, inl, inr, true, none, some, List,
  get_elem?,
}
use cs_network_proj.Client.DownloadManager.{PartStatus}
use cs_network_proj.Client.DownloadManager.Threads.{
  Shared, Phase, replace, Step, acquire, retry, finish, choose, mark, leave, progress, stop, enter,
  give_back, Threads, pick, first, Reach, start, later,
}
use cs_network_proj.Client.DownloadManager.Threads.Lemmas.{
  get_elem?-replace_same, get_elem?-replace_other, search-IsAvailable,
}
use cs_network_proj.Client.DownloadManager.Threads.Phases.{
  part_of, is_inside, target_of, inside_of_target, AreNumbered, AreNumbered-replace,
}

pub record Inv (m : Shared) (phase : ℕ → Phase) : Type 0 where
  pub numbered : AreNumbered m.parts
  pub owner : (t : ℕ) → is_inside (phase t) ≡ true → m.lock ≡ some t
  pub marked : (t i : ℕ) → part_of (phase t) ≡ some i → get_elem? m.taken i ≡ some 1
  pub free : (t i : ℕ) → target_of (phase t) ≡ some i → get_elem? m.taken i ≡ some 0
  pub unique : (t u i : ℕ) → part_of (phase t) ≡ some i → part_of (phase u) ≡ some i → t ≡ u

module _ {m : Shared} {phase : ℕ → Phase} (inv : Inv m phase) (t : ℕ) where
  open inv use {numbered, owner, marked, free, unique}

  -- A part that a thread is to mark is not one that a thread has taken.
  pub target-IsNew :
      (i : ℕ) → target_of (phase t) ≡ some i → (u j : ℕ) → part_of (phase u) ≡ some j → i ≢ j
  target-IsNew i h u j e same = cc (marked u j e, ap (get_elem? m.taken) same, free t i h)

  -- What is to be shown of the thread that goes to the phase `q`, and of the others.
  record Goes (m' : Shared) (q : Phase) : Type 0 where
    numbers : AreNumbered m'.parts
    inside : is_inside q ≡ true → m'.lock ≡ some t
    others_inside : (u : ℕ) → u ≢ t → is_inside (phase u) ≡ true → m'.lock ≡ some u
    marks : (i : ℕ) → part_of q ≡ some i → get_elem? m'.taken i ≡ some 1
    others_mark : (u i : ℕ) → u ≢ t → part_of (phase u) ≡ some i → get_elem? m'.taken i ≡ some 1
    frees : (i : ℕ) → target_of q ≡ some i → get_elem? m'.taken i ≡ some 0
    others_free : (u i : ℕ) → u ≢ t → target_of (phase u) ≡ some i → get_elem? m'.taken i ≡ some 0
    apart : (u i : ℕ) → u ≢ t → part_of (phase u) ≡ some i → part_of q ≢ some i

  Inv-update : (m' : Shared) (q : Phase) → Goes m' q → Inv m' (update phase t q)
  Inv-update m' q g = record {
    numbered = g.numbers;
    owner = λ u h. elim (update-cases phase t q u) [
      | inl (same, e) ↦ g.inside (ap is_inside (sym e) ∙ h) ∙ ap some (sym same)
      | inr (other, e) ↦ g.others_inside u other (ap is_inside (sym e) ∙ h)
    ];
    marked = λ u i h. elim (update-cases phase t q u) [
      | inl (same, e) ↦ g.marks i (ap part_of (sym e) ∙ h)
      | inr (other, e) ↦ g.others_mark u i other (ap part_of (sym e) ∙ h)
    ];
    free = λ u i h. elim (update-cases phase t q u) [
      | inl (same, e) ↦ g.frees i (ap target_of (sym e) ∙ h)
      | inr (other, e) ↦ g.others_free u i other (ap target_of (sym e) ∙ h)
    ];
    unique = λ u v i h k. elim (update-cases phase t q u) [
      | inl (same, e) ↦ elim (update-cases phase t q v) [
        | inl (same', f) ↦ same ∙ sym same'
        | inr (other, f) ↦
            absurd (g.apart v i other (ap part_of (sym f) ∙ k) (ap part_of (sym e) ∙ h))
      ]
      | inr (other, e) ↦ elim (update-cases phase t q v) [
        | inl (same, f) ↦
            absurd (g.apart u i other (ap part_of (sym e) ∙ h) (ap part_of (sym f) ∙ k))
        | inr (_, f) ↦ unique u v i (ap part_of (sym e) ∙ h) (ap part_of (sym f) ∙ k)
      ]
    ];
  }

  -- While the lock is free, or this thread is inside, no other thread is.
  none_inside : m.lock ≡ none → (u : ℕ) → is_inside (phase u) ≡ true → ⊥
  none_inside unlocked u h = cc (owner u h, unlocked)

  pub alone : is_inside (phase t) ≡ true → (u : ℕ) → u ≢ t → is_inside (phase u) ≡ true → ⊥
  alone here u other h = other (cc (owner u h, owner t here))

  no_other_target :
      is_inside (phase t) ≡ true → (u i : ℕ) → u ≢ t → target_of (phase u) ≡ some i → ⊥
  no_other_target here u i other h = alone here u other (inside_of_target (phase u) i h)

  -- A part that this thread has taken is not one of another thread's.
  own_part :
      (i : ℕ) → part_of (phase t) ≡ some i → (u j : ℕ) → u ≢ t → part_of (phase u) ≡ some j → i ≢ j
  own_part i here u j other h e = other (unique u t j h (here ∙ ap some e))

  Step-Goes : (p : Phase) (m' : Shared) (q : Phase) → phase t ≡ p → Step t m p m' q → Goes m' q
  Step-Goes p m' q here (acquire {k} unlocked) = record {
    numbers = numbered;
    inside = λ _. refl;
    others_inside = λ u _ h. absurd (none_inside unlocked u h);
    marks = λ i h. cc;
    others_mark = λ u i _ h. marked u i h;
    frees = λ j h. cc;
    others_free = λ u j _ h. free u j h;
    apart = λ u i _ h e. cc;
  }
  Step-Goes p m' q here (retry {k} h) = record {
    numbers = numbered;
    inside = λ _. owner t (ap is_inside here);
    others_inside = λ u _ h. owner u h;
    marks = λ i h. cc;
    others_mark = λ u i _ h. marked u i h;
    frees = λ j h. cc;
    others_free = λ u j _ h. free u j h;
    apart = λ u i _ h e. cc;
  }
  Step-Goes p m' q here (finish {k} h) = record {
    numbers = numbered;
    inside = λ e. cc;
    others_inside = λ u other h. absurd (alone (ap is_inside here) u other h);
    marks = λ i h. cc;
    others_mark = λ u i _ h. marked u i h;
    frees = λ j h. cc;
    others_free = λ u j _ h. free u j h;
    apart = λ u i _ h e. cc;
  }
  Step-Goes _ m' q here (choose {k} {i} {p} h at) =
      let (left, untaken) = search-IsAvailable m.parts m.taken k i p h at in
      record {
        numbers = numbered;
        inside = λ _. owner t (ap is_inside here);
        others_inside = λ u _ h. owner u h;
        marks = λ j e. cc;
        others_mark = λ u j _ h. marked u j h;
        frees = λ j e.
            let same : i ≡ j = cc in
            ap (get_elem? m.taken) (sym (numbered i p at ∙ same)) ∙ untaken;
        others_free = λ u j _ h. free u j h;
        apart = λ u j _ h e. cc;
      }
  Step-Goes _ m' q here (mark {i} {p} at) =
      let target = ap target_of here in
      let number = numbered i p at in
      let not_theirs = target-IsNew i target in
      let untaken : get_elem? m.taken p.id ≡ some 0 =
        ap (get_elem? m.taken) number ∙ free t i target in
      record {
        numbers = numbered;
        inside = λ _. owner t (ap is_inside here);
        others_inside = λ u _ h. owner u h;
        marks = λ j e.
            let same : i ≡ j = cc in
            ap (get_elem? (replace m.taken p.id 1)) (sym (number ∙ same))
            ∙ get_elem?-replace_same m.taken p.id 0 1 untaken;
        others_mark = λ u j _ h.
            get_elem?-replace_other m.taken p.id j 1 (λ e. not_theirs u j h (sym number ∙ e))
            ∙ marked u j h;
        frees = λ j e. cc;
        others_free = λ u j other h. absurd (no_other_target (ap is_inside here) u j other h);
        apart = λ u j _ h e. not_theirs u j h cc;
      }
  Step-Goes p m' q here (leave {i}) = record {
    numbers = numbered;
    inside = λ e. cc;
    others_inside = λ u other h. absurd (alone (ap is_inside here) u other h);
    marks = λ j h. marked t j (ap part_of here ∙ h);
    others_mark = λ u i _ h. marked u i h;
    frees = λ j h. cc;
    others_free = λ u j _ h. free u j h;
    apart = λ u j other h e. own_part i (ap part_of here) u j other h cc;
  }
  Step-Goes _ m' q here (progress {i} {p} rest at) = record {
    numbers = AreNumbered-replace m.parts i p rest numbered at;
    inside = λ e. cc;
    others_inside = λ u _ h. owner u h;
    marks = λ j h. marked t j (ap part_of here ∙ h);
    others_mark = λ u i _ h. marked u i h;
    frees = λ j h. cc;
    others_free = λ u j _ h. free u j h;
    apart = λ u j other h e. own_part i (ap part_of here) u j other h cc;
  }
  Step-Goes p m' q here (stop {i}) = record {
    numbers = numbered;
    inside = λ e. cc;
    others_inside = λ u _ h. owner u h;
    marks = λ j h. marked t j (ap part_of here ∙ h);
    others_mark = λ u i _ h. marked u i h;
    frees = λ j h. cc;
    others_free = λ u j _ h. free u j h;
    apart = λ u j other h e. own_part i (ap part_of here) u j other h cc;
  }
  Step-Goes p m' q here (enter {i} unlocked) = record {
    numbers = numbered;
    inside = λ _. refl;
    others_inside = λ u _ h. absurd (none_inside unlocked u h);
    marks = λ j h. marked t j (ap part_of here ∙ h);
    others_mark = λ u i _ h. marked u i h;
    frees = λ j h. cc;
    others_free = λ u j _ h. free u j h;
    apart = λ u j other h e. own_part i (ap part_of here) u j other h cc;
  }
  Step-Goes _ m' q here (give_back {i} {p} at) =
      let number = numbered i p at in
      record {
        numbers = numbered;
        inside = λ e. cc;
        others_inside = λ u other h. absurd (alone (ap is_inside here) u other h);
        marks = λ j e. cc;
        others_mark = λ u j other h.
            get_elem?-replace_other m.taken p.id j 0
              (λ e. own_part i (ap part_of here) u j other h (sym number ∙ e))
            ∙ marked u j h;
        frees = λ j e. cc;
        others_free = λ u j other h. absurd (no_other_target (ap is_inside here) u j other h);
        apart = λ u j _ h e. cc;
      }

first-Inv :
    (n : ℕ) (parts : List PartStatus)
    → AreNumbered parts
    → Inv (first n parts).shared (first n parts).phase
first-Inv n parts numbers = record {
  numbered = numbers;
  owner = λ t h. cc;
  marked = λ t i h. cc;
  free = λ t i h. cc;
  unique = λ t u i h k. cc;
}

pub Reach-Inv :
    {n : ℕ} {parts : List PartStatus} {s : Threads}
    → AreNumbered parts
    → Reach n parts s
    → Inv s.shared s.phase
Reach-Inv numbers start = first-Inv _ _ numbers
Reach-Inv numbers (later {s} r (pick t {p} {m} {q} lt here step)) =
    let inv = Reach-Inv numbers r in Inv-update inv t m q (Step-Goes inv t p m q here step)

-- Two threads never have the same part, in whatever order the steps of the threads come. The parts
-- are numbered by their places, as the parts of a new download are.
pub no_part_twice :
    {n : ℕ} {parts : List PartStatus} {s : Threads}
    → AreNumbered parts
    → Reach n parts s
    → (t u i : ℕ) → part_of (s.phase t) ≡ some i
    → part_of (s.phase u) ≡ some i
    → t ≡ u
no_part_twice numbers r t u i h k = (Reach-Inv numbers r).unique t u i h k
