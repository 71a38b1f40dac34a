-- ===== src/Blocks/Copy.antt =====
-- What OutputBuffer_Finish copies.
use pyppmd.Base.{
  ℕ, zero, suc, ◌+◌, ◌≤◌, ◌≡◌, refl, ◌∙◌, sym, ap, List, [], ◌∷◌, ◌++◌, arith, length, set,
  length-append, take, drop, join, take-length, length-drop, length-none,
}
use mathlib.Core.List.{append_assoc, append-nil}
use pyppmd.Blocks.Buffer.{memcpy, copy_blocks}

set-behind :
    (pre : List ℕ) (r : ℕ) (rs : List ℕ) (v : ℕ)
    → set (pre ++ r ∷ rs) (length pre) v ≡ (pre ++ v ∷ []) ++ rs
set-behind [] r rs v = refl
set-behind (x ∷ pre) r rs v = ap (λ ys. x ∷ ys) (set-behind pre r rs v)

pub memcpy-behind :
    (n : ℕ) (pre rest src : List ℕ)
    → n ≤ length src
    → n ≤ length rest
    → memcpy (pre ++ rest) (length pre) src n ≡ pre ++ (take n src ++ drop n rest)
unfolding memcpy take drop
memcpy-behind zero pre rest src h k = refl
memcpy-behind (suc n) pre rest [] h k = absurd (omega arith)
memcpy-behind (suc n) pre [] (x ∷ xs) h k = absurd (omega arith)
memcpy-behind (suc n) pre (r ∷ rs) (x ∷ xs) h k =
    let next : length pre + 1 ≡ length (pre ++ x ∷ []) =
      omega (arith, length-append pre (x ∷ [])) in
    rw (set-behind pre r rs x, next)
      (memcpy-behind n (pre ++ x ∷ []) rs xs (omega arith) (omega arith)
        ∙ append_assoc pre (x ∷ []) (take n xs ++ drop n rs))

copy_blocks-more :
    (result : List ℕ) (at : ℕ) (b : List ℕ) (bs : List (List ℕ)) (last : List ℕ) (pos : ℕ)
    → copy_blocks result at (b ∷ (bs ++ last ∷ [])) pos
      ≡ copy_blocks (memcpy result at b (length b)) (at + length b) (bs ++ last ∷ []) pos
unfolding copy_blocks
copy_blocks-more result at b [] last pos = refl
copy_blocks-more result at b (c ∷ bs) last pos = refl

-- Into a result that has room for them, the blocks and the last one's first bytes are copied in order.
pub copy_blocks-join :
    (bs : List (List ℕ)) (last pre rest : List ℕ) (pos : ℕ)
    → pos ≤ length last
    → length rest ≡ length (join bs) + pos
    → copy_blocks (pre ++ rest) (length pre) (bs ++ last ∷ []) pos
      ≡ pre ++ (join bs ++ take pos last)
unfolding copy_blocks join
copy_blocks-join [] last pre rest pos small room =
    let none_left : drop pos rest ≡ [] =
      length-none (drop pos rest) (omega (arith, length-drop pos rest, room)) in
    memcpy-behind pos pre rest last small (omega (arith, room))
    ∙ ap (λ ys. pre ++ (take pos last ++ ys)) none_left
    ∙ ap (λ ys. pre ++ ys) (append-nil (take pos last))
copy_blocks-join (b ∷ bs) last pre rest pos small room =
    let size = length-append b (join bs) in
    let left = length-drop (length b) rest in
    let at : length pre + length b ≡ length (pre ++ b) = omega (arith, length-append pre b) in
    let copied : memcpy (pre ++ rest) (length pre) b (length b)
        ≡ (pre ++ b) ++ drop (length b) rest =
      memcpy-behind (length b) pre rest b (omega arith) (omega (arith, room, size))
      ∙ ap (λ ys. pre ++ (ys ++ drop (length b) rest)) (take-length b)
      ∙ sym (append_assoc pre b (drop (length b) rest)) in
    copy_blocks-more (pre ++ rest) (length pre) b bs last pos
    ∙ rw (copied, at)
        (copy_blocks-join bs last (pre ++ b) (drop (length b) rest) pos small
            (omega (arith, room, size, left))
          ∙ append_assoc pre b (join bs ++ take pos last)
          ∙ ap (λ ys. pre ++ ys) (sym (append_assoc b (join bs) (take pos last))))
