-- ===== src/Blocks/Reader.antt =====
-- Reader of Buffer.c. A read behind the end of the buffer, which C leaves undefined, gives 0 here.
use pyppmd.Base.{ℕ, zero, suc, ◌+◌, ◌<◌, ◌≡◌, refl, List, [], ◌∷◌, arith, length, get_or, drop}
use pyppmd.RangeCoder.Dec.{read}

pub record InBuffer : Type 0 where
  pub src : List ℕ
  pub size : ℕ
  pub pos : ℕ

unfoldable pub reader : InBuffer → ℕ × InBuffer
reader p = (get_or p.src p.pos 0, record p { pos = p.pos + 1 })

-- The decoders' view of the buffer: what is left of it.
abbrev pub unread : InBuffer → List ℕ
unread p = drop p.pos p.src

drop-read :
    (xs : List ℕ) (n : ℕ)
    → n < length xs
    → (get_or xs n 0 ≡ (read (drop n xs)).0) × (drop (suc n) xs ≡ (read (drop n xs)).1)
unfolding drop read
drop-read [] n inside = absurd (omega arith)
drop-read (x ∷ xs) zero inside = (refl, refl)
drop-read (x ∷ xs) (suc n) inside = drop-read xs n (omega arith)

-- Before the end of the buffer, Reader returns the byte that the decoders' model of a stream returns,
-- and leaves unread what that leaves.
pub reader-read :
    (p : InBuffer)
    → p.size ≡ length p.src
    → p.pos < p.size
    → ((reader p).0 ≡ (read (unread p)).0) × (unread (reader p).1 ≡ (read (unread p)).1)
unfolding reader
reader-read p size inside =
    let next : p.pos + 1 ≡ suc p.pos = omega arith in
    rw next (drop-read p.src p.pos (omega (arith, size)))
