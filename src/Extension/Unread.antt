-- ===== src/Extension/Unread.antt =====
-- What decode makes of its input before and behind the decoding.
use pyppmd.Base.{
  ℕ, ◌+◌, ◌-◌, ◌≤◌, ◌<◌, ◌≡◌, refl, ◌∙◌, sym, ap, Bool-cases, Option, none, some, ◌>>=◌, List, [],
  ◌++◌, ltb, ◌==◌, arith, length, length-append, drop, length-drop, length-none, Option-cases, inl,
  inr,
}
use mathlib.Core.List.{append-nil}
use pyppmd.Blocks.Buffer.{memcpy}
use pyppmd.Extension.Input.{
  Unconsumed, Malloc, Move, block, Prepared, make_room, append_data, prepare,
}
use pyppmd.Extension.Queue.{
  IsHeld, IsMalloc, IsMove, IsApart, IsSupplied, length-IsHeld, unread-IsHeld,
  append_data-IsSupplied, memcpy-front,
}

module _ (malloc : Malloc) (faithful : IsMalloc malloc) (move : Move) (exact : IsMove move) where
  -- Room for more bytes; it lacks where the block is too small and there is no memory for another.
  abbrev pub IsRoomy : Unconsumed → List ℕ → (n : ℕ) → Option Unconsumed → Type 0
  IsRoomy s old n none = (s.input_buffer_size < length old + n) × (malloc (length old + n) ≡ none)
  IsRoomy s old n (some t) = (h : IsHeld t old) × (n ≤ length h.post)

  moved : {s : Unconsumed} {old : List ℕ} → IsHeld s old → (b : List ℕ) → (size n : ℕ) → Unconsumed
  moved {s} {old} h b size n = record {
    input_buffer = some (memcpy b 0 (drop s.in_begin (block s)) n);
    input_buffer_size = size;
    in_begin = 0;
    in_end = n;
  }

  -- The unconsumed bytes at the front of a block.
  moved-IsHeld :
      {s : Unconsumed} {old : List ℕ} (h : IsHeld s old) (b : List ℕ) (size n : ℕ)
      → size ≡ length b
      → n ≡ length old
      → n ≤ length b
      → (h' : IsHeld (moved h b size n) old) × (h'.post ≡ drop n b)
  unfolding moved
  moved-IsHeld {s} {old} h b size n long same room =
      let written : memcpy b 0 (drop s.in_begin (block s)) n ≡ old ++ drop n b =
        ap (λ src. memcpy b 0 src n) (unread-IsHeld h)
        ∙ memcpy-front b old h.post n (sym same) room in
      (
        record {
          pre = [];
          post = drop n b;
          shape = written;
          start = refl;
          stop = omega (arith, same);
          size = omega (
            arith,
            long,
            ap length written,
            length-append old (drop n b),
            length-drop n b,
            same,
            room,
          );
        },
        refl,
      )

  make_room-IsRoomy :
      {s : Unconsumed} {old : List ℕ} (n : ℕ)
      → IsHeld s old
      → IsApart s n
      → IsRoomy s old n (make_room malloc move s n)
  unfolding make_room moved
  make_room-IsRoomy {s} {old} n h apart =
      let used : s.in_end - s.in_begin ≡ length old = omega (arith, h.start, h.stop) in
      let whole = length-IsHeld h in
      elim (Bool-cases (ltb (s.input_buffer_size - (s.in_end - s.in_begin)) n)) [
        | inl short ↦ elim (Option-cases (malloc (s.in_end - s.in_begin + n))) [
          | inl failed ↦
              rw (make_room, short, failed)
                (ground (arith, short, used, whole), ap (λ m. malloc (m + n)) (sym used) ∙ failed)
          | inr (b, got) ↦
              let long = faithful _ b got in
              let (h', post) =
                moved-IsHeld h b (s.in_end - s.in_begin + n) (s.in_end - s.in_begin) (sym long) used
                  (omega (arith, long)) in
              rw (make_room, short, got)
                (h', omega (arith, ap length post, length-drop (s.in_end - s.in_begin) b, long))
        ]
        | inr wide ↦ elim (Bool-cases (ltb (s.input_buffer_size - s.in_end) n)) [
          | inl near_end ↦
              let m = s.in_end - s.in_begin in
              let (h', post) =
                moved-IsHeld h (block s) s.input_buffer_size m h.size used
                  (omega (arith, whole, h.size)) in
              let left : n ≤ s.input_buffer_size - m = ground (arith, wide) in
              let over : s.input_buffer_size < s.in_end + n = ground (arith, near_end) in
              let copied =
                exact (block s) s.in_begin m (apart over (omega (arith, left, used, whole)))
                  (omega (arith, h.start, h.stop, whole, h.size)) in
              rw (make_room, wide, near_end, copied)
                (h', omega (arith, ap length post, length-drop m (block s), left, h.size))
          | inr fits ↦ rw (make_room, wide, fits) (h, ground (arith, fits, whole, h.stop))
        ]
      ]

  -- The input that decode prepares, `none` where it finds no memory for it.
  abbrev pub IsPrepared : Unconsumed → (old bytes : List ℕ) → Option Prepared → Type 0
  IsPrepared s old bytes none =
      (s.input_buffer_size < length (old ++ bytes))
      × (1 ≤ length old)
      × (1 ≤ length bytes)
      × (malloc (length (old ++ bytes)) ≡ none)
  IsPrepared s old bytes (some r) = IsSupplied r (old ++ bytes) × (r.input.pos ≡ 0)

  append_data-IsPrepared :
      (s : Unconsumed) (old bytes : List ℕ) (r : Option Unconsumed)
      → 1 ≤ length old
      → 1 ≤ length bytes
      → IsRoomy s old (length bytes) r
      → IsPrepared s old bytes (r >>= λ t. some (append_data t bytes))
  unfolding append_data
  append_data-IsPrepared s old bytes none some_old some_new (small, failed) =
      rw (length-append old bytes) (small, some_old, some_new, failed)
  append_data-IsPrepared s old bytes (some t) some_old some_new (h, room) =
      (append_data-IsSupplied h bytes room, refl)

  -- What decode reads from is what an earlier call has left followed by what is handed in, and all of
  -- it unread, whether it takes the object's buffer for it or not, where it does not move bytes within
  -- the object's block to a place that overlaps with theirs; it fails only where some bytes are
  -- left and some are handed in, the block is too small for both, and there is no memory for one
  -- that is as large as they are.
  pub prepare-IsPrepared :
      {s : Unconsumed} {old : List ℕ} (bytes : List ℕ)
      → IsHeld s old
      → IsApart s (length bytes)
      → IsPrepared s old bytes (prepare malloc move s bytes)
  unfolding prepare
  prepare-IsPrepared {s} {old} bytes h apart = elim (Bool-cases (s.in_begin == s.in_end)) [
    | inl same ↦
        let none_left : old ≡ [] = length-none old (ground (arith, same, h.start, h.stop)) in
        rw (prepare, same, none_left)
          (
            record {
              tail = [];
              src = sym (append-nil bytes);
              size = refl;
              used = λ e. cc e;
              unused = λ e. rw none_left at h;
            },
            refl,
          )
    | inr some_left ↦ elim (Bool-cases (length bytes == 0)) [
      | inl nothing ↦
          let no_bytes : bytes ≡ [] = length-none bytes (ground (arith, nothing)) in
          rw (prepare, some_left, nothing, no_bytes, append-nil old)
            (
              record {
                tail = h.post;
                src = unread-IsHeld h;
                size = omega (arith, h.start, h.stop);
                used = λ e. h;
                unused = λ e. cc e;
              },
              refl,
            )
      | inr several ↦
          rw (prepare, some_left, several)
            (append_data-IsPrepared s old bytes _ (ground (arith, some_left, h.start, h.stop))
              (ground (arith, several)) (make_room-IsRoomy (length bytes) h apart))
    ]
  ]
