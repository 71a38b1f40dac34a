-- ===== src/Threads/Plain.antt =====
-- The decoder without threads, symbol after symbol and byte after byte, and the steps of the threaded
-- one with the bytes that its worker takes.
use pyppmd.Base.{ℕ, ◌≤◌, ◌≡◌, true, false, some, List, [], ◌∷◌, ◌++◌, length}
use pyppmd.Coding.{byte, end_mark, data_error}
use pyppmd.Threads.Control.{
  Process, asks, gives, Worker, absent, created, looping, decoding, blocked, exited, idle, called,
  waiting, joining, Control, decode_init, work, set_buffers, enter, begin, check, join_worker,
}

-- Where a decoder stands: between two symbols or in one.
pub data Stage (M : Type 0) : Type 0 where
  between : M → Stage M
  during : Process M → Stage M

module _ {M : Type 0} (decode : M → Process M) (m0 : M) where
  -- The plain decoder: from `m0` it comes to a stage with the bytes `taken` read, and has put out the
  -- bytes `given`.
  pub data Run : (taken given : List ℕ) → Stage M → Type 0 where
    begins : Run [] [] (between m0)
    calls : {t o : List ℕ} {m : M} → Run t o (between m) → Run t o (during (decode m))
    reads :
        {t o : List ℕ} {k : ℕ → Process M} (b : ℕ)
        → Run t o (during (asks k))
        → Run (t ++ b ∷ []) o (during (k b))
    returns :
        {t o : List ℕ} {c : ℕ} {m : M}
        → Run t o (during (gives (byte c) m))
        → Run t (o ++ c ∷ []) (between m)
    marks : {t o : List ℕ} {m : M} → Run t o (during (gives end_mark m)) → Run t o (between m)
    fails : {t o : List ℕ} {m : M} → Run t o (during (gives data_error m)) → Run t o (between m)

-- Where the worker has brought the decoder.
abbrev pub stage : {M : Type 0} → Worker M → M → Stage M
stage absent m = between m
stage created m = between m
stage (looping i n m') m = between m'
stage (decoding i n w) m = during w
stage (blocked i n k) m = during (asks k)
stage exited m = between m

abbrev pub first : List ℕ → List ℕ
first [] = []
first (b ∷ bs) = b ∷ []

-- What the worker's next step takes from the input.
abbrev pub consumed : {M : Type 0} → Worker M → List ℕ → List ℕ
consumed (decoding i n (asks k)) input = first input
consumed (blocked i n k) input = first input
consumed w input = []

module _ {M : Type 0} (decode : M → Process M) (m0 : M) where
  -- The steps of an object that lives, with the bytes that the worker has taken so far. A call that
  -- wakes a worker has input for it.
  pub data Served : Control M → (taken : List ℕ) → Type 0 where
    begun : Served (decode_init m0) []
    works :
        {p q : Control M} {t : List ℕ}
        → Served p t
        → work decode p.worker p ≡ some q
        → Served q (t ++ consumed p.worker p.input)
    sets :
        {p : Control M} {t : List ℕ} (input : List ℕ) (room : ℕ)
        → Served p t
        → p.caller ≡ idle
        → Served (set_buffers p input room) t
    enters :
        {p : Control M} {t : List ℕ} (max_length : ℕ)
        → Served p t
        → p.caller ≡ idle
        → Served (enter p max_length) t
    creates :
        {p : Control M} {t : List ℕ}
        → Served p t
        → p.caller ≡ called true
        → Served (begin p true true) t
    misses :
        {p : Control M} {t : List ℕ}
        → Served p t
        → p.caller ≡ called true
        → Served (begin p true false) t
    wakes :
        {p : Control M} {t : List ℕ}
        → Served p t
        → p.caller ≡ called false
        → 1 ≤ length p.input
        → Served (begin p false true) t
    checks : {p : Control M} {t : List ℕ} → Served p t → p.caller ≡ waiting → Served (check p) t
    joins :
        {p q : Control M} {t : List ℕ}
        → Served p t
        → p.caller ≡ joining
        → join_worker p p.worker ≡ some q
        → Served q t
