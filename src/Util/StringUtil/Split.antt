-- ===== src/Util/StringUtil/Split.antt =====
-- `split` against a scan of the text that collects the words between delimiters.
use cs_network_proj.Base.{
  ℕ, zero, suc, ◌+◌, ◌-◌, ◌<◌, ◌≡◌, refl, sym, ap, ◌∙◌, inl, inr, true, false, List, [], ◌∷◌, ◌++◌,
  none, some, arith, length, take, drop, length-append, length-drop, length-take, take-append-drop,
  drop-append_length, append_assoc, append-nil, if◌then◌else◌, Option-cases, ltb, lt→ltb, ◌==◌,
}
use cs_network_proj.Util.StringUtil.{contains, first_of, find_first_of, substr, split_loop, split}

-- A word that has ended joins the others, unless it is empty.
unfoldable pub flush : List ℕ → List (List ℕ) → List (List ℕ)
flush [] words = words
flush (c ∷ cs) words = (c ∷ cs) ∷ words

-- The words of a text, where `word` is what has been read of the current one.
unfoldable pub words_from : List ℕ → List ℕ → List ℕ → List (List ℕ)
unfolding flush
words_from delims word [] = flush word []
words_from delims word (c ∷ cs) =
    let ended = flush word (words_from delims [] cs) in
    let longer = words_from delims (word ++ c ∷ []) cs in
    if contains delims c then ended else longer

pub words : List ℕ → List ℕ → List (List ℕ)
unfolding words_from
words delims text = words_from delims [] text

-- Up to the first delimiter the scan reads one word.
first_of-none :
    (delims word cs : List ℕ)
    → first_of delims cs ≡ none
    → words_from delims word cs ≡ flush (word ++ cs) []
unfolding first_of words_from
first_of-none delims word [] h = ap (λ l. flush l []) (sym (append-nil word))
first_of-none delims word (c ∷ cs) h = ground (
  arith,
  first_of-none delims (word ++ c ∷ []) cs,
  append_assoc word (c ∷ []) cs,
  Option-cases (first_of delims cs),
)

first_of-some :
    (delims word cs : List ℕ) (i : ℕ)
    → first_of delims cs ≡ some i
    → (i < length cs)
      × (words_from delims word cs
          ≡ flush (word ++ take i cs) (words_from delims [] (drop (suc i) cs)))
unfolding first_of words_from
first_of-some delims word [] i h = cc
first_of-some delims word (c ∷ cs) zero h =
    let hits : contains delims c ≡ true = ground (arith, Option-cases (first_of delims cs)) in
    (omega arith, rw (hits, append-nil word) refl)
first_of-some delims word (c ∷ cs) (suc i) h =
    let found : first_of delims cs ≡ some i = ground (arith, Option-cases (first_of delims cs)) in
    let misses : contains delims c ≡ false = ground (arith, Option-cases (first_of delims cs)) in
    let (inside, e) = first_of-some delims (word ++ c ∷ []) cs i found in
    let others = words_from delims [] (drop (suc i) cs) in
    (omega arith, rw misses (e ∙ ap (λ l. flush l others) (append_assoc word (c ∷ []) (take i cs))))

find_first_of-none :
    (text delims rest : List ℕ) (first : ℕ)
    → drop first text ≡ rest
    → first_of delims rest ≡ none
    → find_first_of text delims first ≡ none
unfolding find_first_of
find_first_of-none text delims rest first e h = rw (ap (first_of delims) e ∙ h, find_first_of)

find_first_of-some :
    (text delims rest : List ℕ) (first i : ℕ)
    → drop first text ≡ rest
    → first_of delims rest ≡ some i
    → find_first_of text delims first ≡ some (first + i)
unfolding find_first_of
find_first_of-some text delims rest first i e h = rw (ap (first_of delims) e ∙ h, find_first_of)

-- The words that a round adds to the output.
after_find-flush :
    (text : List ℕ) (first i : ℕ) (output others : List (List ℕ)) (c : ℕ) (cs : List ℕ)
    → drop first text ≡ c ∷ cs
    → (if first == first + i then output else output ++ substr text first (first + i - first) ∷ [])
        ++ others
      ≡ output ++ flush (take i (c ∷ cs)) others
unfolding flush
after_find-flush text first zero output others c cs e =
    let same : (first == first + 0) ≡ true = ground arith in rw same refl
after_find-flush text first (suc i) output others c cs e =
    let apart : (first == first + suc i) ≡ false = ground arith in
    let width : first + suc i - first ≡ suc i = omega arith in
    rw (apart, width, e) (append_assoc output (_ ∷ []) others)

split_loop-words :
    (fuel : ℕ) (delims text pre rest : List ℕ) (first : ℕ) (output : List (List ℕ))
    → length rest < fuel
    → text ≡ pre ++ rest
    → first ≡ length pre
    → split_loop fuel text delims first output ≡ some (output ++ words_from delims [] rest)
unfolding split_loop words_from
split_loop-words zero delims text pre rest first output h e k = absurd (omega arith)
split_loop-words (suc fuel) delims text pre [] first output h e k =
    ground (arith, ap length e, length-append pre [], append-nil output)
split_loop-words (suc fuel) delims text pre (c ∷ cs) first output h e k =
    let left : drop first text ≡ c ∷ cs =
      ap (drop first) e ∙ drop-append_length first pre (c ∷ cs) k in
    let inside : ltb first (length text) ≡ true =
      lt→ltb _ _ (omega (arith, ap length e, length-append pre (c ∷ cs))) in
    elim (Option-cases (first_of delims (c ∷ cs))) [
      | inl nothing ↦
          rw (inside, find_first_of-none text delims (c ∷ cs) first left nothing)
            (ap some (
              ap (λ l. output ++ l)
                (ap (λ l. l ∷ []) left ∙ sym (first_of-none delims [] (c ∷ cs) nothing))))
      | inr (i, found) ↦
          let (short, e') = first_of-some delims [] (c ∷ cs) i found in
          let rest = drop (suc i) (c ∷ cs) in
          rw (inside, find_first_of-some text delims (c ∷ cs) first i left found)
            (split_loop-words fuel delims text (pre ++ take (suc i) (c ∷ cs)) rest _ _
                (omega (arith, length-drop i cs))
                (e
                  ∙ ap (λ l. pre ++ l) (sym (take-append-drop (suc i) (c ∷ cs)))
                  ∙ sym (append_assoc pre (take (suc i) (c ∷ cs)) rest))
                (omega (arith, length-append pre (c ∷ take i cs), length-take i cs))
              ∙ ap some (
                  after_find-flush text first i output _ c cs left
                  ∙ ap (λ l. output ++ l) (sym e')))
    ]

-- `split` returns the non-empty words between delimiters, in the order of the text.
pub split-words : (text delims : List ℕ) → split text delims ≡ some (words delims text)
unfolding split words
split-words text delims =
    split_loop-words (suc (length text)) delims text [] text 0 [] (omega arith) refl refl
