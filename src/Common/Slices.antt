-- ===== src/Common/Slices.antt =====
-- Rust slices of a byte vector: `&v[i..j]`, `v[i..j].copy_from_slice(src)` and `Vec::resize`.
-- Each is total here; where the source would panic, its caller's guard is modelled with it.
use simulators.Common.{
  ℕ, zero, suc, ◌+◌, ◌-◌, ◌≤◌, ◌<◌, ◌≡◌, refl, sym, ap, ◌∙◌, List, ◌∷◌, ◌++◌, Bool, true, false,
  ◌&&◌, ◌==◌, arith, length, get_or, take, drop, replicate, length-append, length-take, length-drop,
  length-replicate, take-append, drop-append, get_or-append_left, get_or-append_right, get_or-drop,
}

module _ {ℓ} {A : Type ℓ} where
  -- `&xs[i..j]`, for i ≤ j ≤ xs.len().
  unfoldable pub slice : ℕ → ℕ → List A → List A
  slice i j xs = take (j - i) (drop i xs)

  -- `xs[off..off + src.len()].copy_from_slice(src)`, for off + src.len() ≤ xs.len().
  unfoldable pub splice : ℕ → List A → List A → List A
  splice off src xs = take off xs ++ (src ++ drop (off + length src) xs)

  -- `xs.resize(n, a)`.
  unfoldable pub resize : ℕ → A → List A → List A
  resize n a xs = take n xs ++ replicate (n - length xs) a

module _ {ℓ} {A : Type ℓ} where
  pub length-slice : (i j : ℕ) (xs : List A) → i ≤ j → j ≤ length xs → length (slice i j xs) ≡ j - i
  unfolding slice
  length-slice i j xs h k = length-take (j - i) (drop i xs) (omega (arith, length-drop i xs))

  pub length-splice :
      (off : ℕ) (src xs : List A)
      → off + length src ≤ length xs
      → length (splice off src xs) ≡ length xs
  unfolding splice
  length-splice off src xs h = omega (
    arith,
    length-append (take off xs) (src ++ drop (off + length src) xs),
    length-append src (drop (off + length src) xs),
    length-take off xs (omega arith),
    length-drop (off + length src) xs,
  )

  -- What was copied in is read back.
  pub slice-splice :
      (off end : ℕ) (src xs : List A)
      → end ≡ off + length src
      → end ≤ length xs
      → slice off end (splice off src xs) ≡ src
  unfolding slice splice
  slice-splice off end src xs e h =
      ap (take (end - off)) (
        drop-append off (take off xs) (src ++ drop (off + length src) xs)
          (sym (length-take off xs (omega arith))))
      ∙ take-append (end - off) src (drop (off + length src) xs) (omega arith)

  pub get_or-splice_left :
      (off : ℕ) (src xs : List A) (i : ℕ) (d : A)
      → off ≤ length xs
      → i < off
      → get_or (splice off src xs) i d ≡ get_or xs i d
  unfolding splice
  get_or-splice_left off src xs i d h k =
      get_or-append_left (take off xs) (src ++ drop (off + length src) xs) i d
        (omega (arith, length-take off xs h))
      ∙ get_or-take off xs i d k
    where
      get_or-take :
          (n : ℕ) (ys : List A) (j : ℕ) (e : A) → j < n → get_or (take n ys) j e ≡ get_or ys j e
      get_or-take zero ys j e l = absurd (omega arith)
      get_or-take (suc n) List.[] j e l = refl
      get_or-take (suc n) (List.◌∷◌ y ys) zero e l = refl
      get_or-take (suc n) (List.◌∷◌ y ys) (suc j) e l = get_or-take n ys j e (omega arith)

  pub get_or-splice_right :
      (off : ℕ) (src xs : List A) (i : ℕ) (d : A)
      → off + length src ≤ length xs
      → off + length src ≤ i
      → get_or (splice off src xs) i d ≡ get_or xs i d
  unfolding splice
  get_or-splice_right off src xs i d h k =
      let rest = drop (off + length src) xs in
      let e : off + length src + (i - off - length src) ≡ i = omega arith in
      get_or-append_right (take off xs) (src ++ rest) i (i - off) d
        (omega (arith, length-take off xs (omega arith)))
      ∙ get_or-append_right src rest (i - off) (i - off - length src) d (omega arith)
      ∙ get_or-drop (off + length src) (i - off - length src) xs d
      ∙ ap (λ (j : ℕ). get_or xs j d) e

  pub length-resize : (n : ℕ) (a : A) (xs : List A) → length xs ≤ n → length (resize n a xs) ≡ n
  unfolding resize
  length-resize n a xs h = omega (
    arith,
    length-append (take n xs) (replicate (n - length xs) a),
    length-replicate (n - length xs) a,
    length-take_ge n xs h,
  )
    where
      length-take_ge : (m : ℕ) (ys : List A) → length ys ≤ m → length (take m ys) ≡ length ys
      length-take_ge zero List.[] l = refl
      length-take_ge zero (List.◌∷◌ y ys) l = absurd (omega arith)
      length-take_ge (suc m) List.[] l = refl
      length-take_ge (suc m) (List.◌∷◌ y ys) l = ap suc (length-take_ge m ys (omega arith))

-- `xs == ys` on bytes.
unfoldable pub same_bytes : List ℕ → List ℕ → Bool
same_bytes List.[] List.[] = true
same_bytes (x ∷ xs) (y ∷ ys) = let rest = same_bytes xs ys in (x == y) && rest
same_bytes _ _ = false

pub same_bytes_refl : (xs : List ℕ) → same_bytes xs xs ≡ true
unfolding same_bytes
same_bytes_refl List.[] = refl
same_bytes_refl (x ∷ xs) = ground (arith, same_bytes_refl xs)

pub same_bytes→eq : (xs ys : List ℕ) → same_bytes xs ys ≡ true → xs ≡ ys
unfolding same_bytes
same_bytes→eq List.[] List.[] h = refl
same_bytes→eq List.[] (y ∷ ys) h = ground arith
same_bytes→eq (x ∷ xs) List.[] h = ground arith
same_bytes→eq (x ∷ xs) (y ∷ ys) h =
    let head : x ≡ y = ground arith in
    let tail : xs ≡ ys = same_bytes→eq xs ys (ground arith) in rw (head, tail) refl
