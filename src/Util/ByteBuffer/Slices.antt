-- ===== src/Util/ByteBuffer/Slices.antt =====
-- Which ranges a buffer can be cut to, and what the cut holds.
use cs_network_proj.Base.{
  ℕ, ◌+◌, ◌-◌, ◌≤◌, ◌<◌, ◌≡◌, refl, ap, sym, ◌∙◌, ◌↔◌, some, ◌++◌, arith, length, take, drop,
  length-append, length-take, length-drop, take-append_length, drop-append_length, take-append-drop,
}
use cs_network_proj.Base.Int.{ℤ, pos, negsuc}
use cs_network_proj.Util.ByteBuffer.{ByteBuffer, resolve, size, checked_slice, slice}

-- `b` is `pre`, then `c`, then `post`; the two resolved indices are the ends of `c`, and they are
-- within what the code asserts.
pub record IsCut (b : ByteBuffer) (i j : ℤ) (c : ByteBuffer) : Type 0 where
  pub pre : ByteBuffer
  pub post : ByteBuffer
  pub parts : b ≡ pre ++ (c ++ post)
  pub starts : i ≡ pos (length pre)
  pub ends : j ≡ pos (length pre + length c)
  pub inside : length pre < length b
  pub positive : 0 < length pre + length c

take-drop-split :
    (i n : ℕ) (b : ByteBuffer) → b ≡ take i b ++ (take n (drop i b) ++ drop n (drop i b))
take-drop-split i n b = rw take-append-drop (sym (take-append-drop i b))

checked_slice-bounds :
    (b c : ByteBuffer) (i j : ℕ)
    → checked_slice b (pos i) (pos j) ≡ some c
    → (i < length b) × (0 < j) × (j ≤ length b) × (i ≤ j) × (c ≡ take (j - i) (drop i b))
checked_slice-bounds b c i j h = ground arith

range-IsCut :
    (b c : ByteBuffer) (i j : ℕ)
    → i < length b
    → 0 < j
    → j ≤ length b
    → i ≤ j
    → c ≡ take (j - i) (drop i b)
    → IsCut b (pos i) (pos j) c
range-IsCut b c i j hi hj hb hij e =
    let front : length (take i b) ≡ i = omega (arith, length-take i b) in
    let middle : length c ≡ j - i =
      ap length e ∙ omega (arith, length-take (j - i) (drop i b), length-drop i b) in
    record {
      pre = take i b;
      post = drop (j - i) (drop i b);
      parts = rw e (take-drop-split i (j - i) b);
      starts = ap pos (sym front);
      ends = ap pos (omega arith);
      inside = omega arith;
      positive = omega arith;
    }

checked_slice-IsCut : (b c : ByteBuffer) (i j : ℤ) → checked_slice b i j ≡ some c → IsCut b i j c
checked_slice-IsCut b c (pos i) (pos j) h =
    let (hi, hj, hb, hij, e) = checked_slice-bounds b c i j h in range-IsCut b c i j hi hj hb hij e
checked_slice-IsCut b c (pos i) (negsuc j) h = cc
checked_slice-IsCut b c (negsuc i) j h = cc

checked_slice_at :
    (pre c post : ByteBuffer)
    → length pre < length (pre ++ (c ++ post))
    → 0 < length pre + length c
    → checked_slice (pre ++ (c ++ post)) (pos (length pre)) (pos (length pre + length c)) ≡ some c
checked_slice_at pre c post inside positive =
    let width : length pre + length c - length pre ≡ length c = omega arith in
    let whole : length (pre ++ (c ++ post)) ≡ length pre + (length c + length post) =
      length-append pre (c ++ post) ∙ ap (λ n. length pre + n) (length-append c post) in
    let middle : take (length pre + length c - length pre) (drop (length pre) (pre ++ (c ++ post)))
        ≡ c =
      ap (take (length pre + length c - length pre)) (drop-append_length (length pre) pre _ refl)
      ∙ take-append_length _ c post width in
    ground arith

IsCut-checked_slice : (b c : ByteBuffer) (i j : ℤ) → IsCut b i j c → checked_slice b i j ≡ some c
IsCut-checked_slice b c i j cut =
    rw (cut.parts, cut.starts, cut.ends)
      (checked_slice_at cut.pre c cut.post (omega (arith, cut.inside, ap length cut.parts))
        cut.positive)

-- `slice` returns exactly the bytes between its two indices, a negative one counted from the
-- end, if the range does not run backwards, starts before the end of the buffer and does not end
-- at 0. In every other case it fails.
pub slice_iff :
    (b : ByteBuffer) (start end : ℤ) (c : ByteBuffer)
    → (slice b start end ≡ some c) ↔ IsCut b (resolve start (size b)) (resolve end (size b)) c
unfolding slice
slice_iff b start end c = (checked_slice-IsCut b c _ _, IsCut-checked_slice b c _ _)
