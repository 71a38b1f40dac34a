-- ===== src/Extension/Queue.antt =====
-- The input buffer of a decoder object as a queue of bytes.
use pyppmd.Base.{
  ℕ, zero, suc, ◌+◌, ◌-◌, ◌≤◌, ◌<◌, ◌≡◌, refl, ◌∙◌, sym, ap, true, false, some, List, [], ◌∷◌, ◌++◌,
  arith, length, length-append, take, drop, take-append, take-length, length-drop,
}
use mathlib.Core.List.{append_assoc, append-nil}
use pyppmd.Blocks.Buffer.{memcpy}
use pyppmd.Blocks.Copy.{memcpy-behind}
use pyppmd.Extension.Input.{Unconsumed, Malloc, Move, block, Prepared, append_data, unconsumed}

pub take-front : (xs ys : List ℕ) → take (length xs) (xs ++ ys) ≡ xs
unfolding take
take-front xs ys =
    let plain : length xs ≡ length xs + 0 = omega arith in
    rw plain (take-append xs ys 0 ∙ append-nil xs)

drop-front : (xs ys : List ℕ) → drop (length xs) (xs ++ ys) ≡ ys
unfolding drop
drop-front [] ys = refl
drop-front (x ∷ xs) ys = drop-front xs ys

pub drop-before : (n : ℕ) (xs ys : List ℕ) → n ≤ length xs → drop n (xs ++ ys) ≡ drop n xs ++ ys
unfolding drop
drop-before zero xs ys h = refl
drop-before (suc n) [] ys h = absurd (omega arith)
drop-before (suc n) (x ∷ xs) ys h = drop-before n xs ys (omega arith)

pub take-drop : (n : ℕ) (xs : List ℕ) → take n xs ++ drop n xs ≡ xs
unfolding take drop
take-drop zero xs = refl
take-drop (suc n) [] = refl
take-drop (suc n) (x ∷ xs) = ap (λ ys. x ∷ ys) (take-drop n xs)

-- Bytes that are written over the front of a block.
pub memcpy-front :
    (b bytes tail : List ℕ) (n : ℕ)
    → length bytes ≡ n
    → n ≤ length b
    → memcpy b 0 (bytes ++ tail) n ≡ bytes ++ drop n b
memcpy-front b bytes tail n size room =
    memcpy-behind n [] b (bytes ++ tail) (omega (arith, length-append bytes tail, size)) room
    ∙ ap (λ m. take m (bytes ++ tail) ++ drop n b) (sym size)
    ∙ ap (λ ys. ys ++ drop n b) (take-front bytes tail)

-- The block holds the bytes from `in_begin` to `in_end`.
pub record IsHeld (s : Unconsumed) (bytes : List ℕ) : Type 0 where
  pub pre : List ℕ
  pub post : List ℕ
  pub shape : block s ≡ pre ++ (bytes ++ post)
  pub start : s.in_begin ≡ length pre
  pub stop : s.in_end ≡ length pre + length bytes
  pub size : s.input_buffer_size ≡ length (block s)

pub length-IsHeld :
    {s : Unconsumed} {bytes : List ℕ} (h : IsHeld s bytes)
    → s.input_buffer_size ≡ length h.pre + length bytes + length h.post
length-IsHeld {s} {bytes} h = omega (
  arith,
  h.size,
  ap length h.shape,
  length-append h.pre (bytes ++ h.post),
  length-append bytes h.post,
)

pub unread-IsHeld :
    {s : Unconsumed} {bytes : List ℕ} (h : IsHeld s bytes)
    → drop s.in_begin (block s) ≡ bytes ++ h.post
unread-IsHeld {s} {bytes} h = rw (h.start, h.shape) (drop-front h.pre (bytes ++ h.post))

-- They are what unused_data would return.
pub unconsumed-IsHeld : {s : Unconsumed} {bytes : List ℕ} → IsHeld s bytes → unconsumed s ≡ bytes
unconsumed-IsHeld {s} {bytes} h =
    let n : s.in_end - s.in_begin ≡ length bytes = omega (arith, h.start, h.stop) in
    ap (λ m. take m (drop s.in_begin (block s))) n
    ∙ ap (take (length bytes)) (unread-IsHeld h)
    ∙ take-front bytes h.post

-- PyMem_Malloc returns as many bytes as it is asked for, or NULL.
abbrev pub IsMalloc : Malloc → Type 0
IsMalloc malloc = (n : ℕ) (b : List ℕ) → malloc n ≡ some b → length b ≡ n

-- memcpy copies where its areas do not overlap.
abbrev pub IsMove : Move → Type 0
IsMove move =
    (b : List ℕ) (from n : ℕ)
    → n ≤ from
    → from + n ≤ length b
    → move b from n ≡ memcpy b 0 (drop from b) n

-- Where the unconsumed bytes have to be moved within their block to make room for `n` bytes, they
-- do not overlap with their new place.
abbrev pub IsApart : Unconsumed → (n : ℕ) → Type 0
IsApart s n =
    s.input_buffer_size < s.in_end + n
    → s.in_end - s.in_begin + n ≤ s.input_buffer_size
    → s.in_end - s.in_begin ≤ s.in_begin

-- A decoder's input that holds `bytes`, in the object's block or in what was handed in.
pub record IsSupplied (r : Prepared) (bytes : List ℕ) : Type 0 where
  pub tail : List ℕ
  pub src : r.input.src ≡ bytes ++ tail
  pub size : r.input.size ≡ length bytes
  pub used : r.use_input_buffer ≡ true → IsHeld r.held bytes
  pub unused : r.use_input_buffer ≡ false → IsHeld r.held []

pub append_data-IsSupplied :
    {s : Unconsumed} {old : List ℕ} (h : IsHeld s old) (bytes : List ℕ)
    → length bytes ≤ length h.post
    → IsSupplied (append_data s bytes) (old ++ bytes)
unfolding append_data
append_data-IsSupplied {s} {old} h bytes room =
    let n = length bytes in
    let place : s.in_end ≡ length (h.pre ++ old) = omega (arith, h.stop, length-append h.pre old) in
    let written : memcpy (block s) s.in_end bytes n ≡ h.pre ++ ((old ++ bytes) ++ drop n h.post) =
      rw (place, h.shape ∙ sym (append_assoc h.pre old h.post))
        (memcpy-behind n (h.pre ++ old) h.post bytes (omega arith) room
          ∙ ap (λ ys. (h.pre ++ old) ++ (ys ++ drop n h.post)) (take-length bytes)
          ∙ append_assoc h.pre old (bytes ++ drop n h.post)
          ∙ ap (λ ys. h.pre ++ ys) (sym (append_assoc old bytes (drop n h.post)))) in
    let held : IsHeld (append_data s bytes).held (old ++ bytes) = record {
      pre = h.pre;
      post = drop n h.post;
      shape = written;
      start = h.start;
      stop = omega (arith, h.stop, length-append old bytes);
      size = omega (
        arith,
        length-IsHeld h,
        ap length written,
        length-append h.pre ((old ++ bytes) ++ drop n h.post),
        length-append (old ++ bytes) (drop n h.post),
        length-append old bytes,
        length-drop n h.post,
        room,
      );
    } in
    record {
      tail = drop n h.post;
      src = unread-IsHeld held;
      size = omega (arith, h.start, h.stop, length-append old bytes);
      used = λ e. held;
      unused = λ e. cc e;
    }
