-- ===== src/Threads/Order.antt =====
-- The steps of worker and caller in any order, and what holds behind each of them.
use pyppmd.Base.{ℕ, ◌≤◌, ◌≡◌, Bool, true, false, some, List}
use pyppmd.Threads.Control.{
  Process, Worker, absent, created, looping, decoding, blocked, exited, idle, called, waiting,
  joining, cancelling, freed, Control, decode_init, work, set_buffers, enter, begin, check,
  join_worker, free_control, cancel_worker,
}

module _ {M : Type 0} (decode : M → Process M) where
  pub data Step : Control M → Control M → Type 0 where
    works : {p q : Control M} → work decode p.worker p ≡ some q → Step p q
    sets :
        {p : Control M} (input : List ℕ) (room : ℕ)
        → p.caller ≡ idle
        → Step p (set_buffers p input room)
    enters : {p : Control M} (max_length : ℕ) → p.caller ≡ idle → Step p (enter p max_length)
    begins :
        {p : Control M} {b : Bool} (thread_made : Bool)
        → p.caller ≡ called b
        → Step p (begin p b thread_made)
    checks : {p : Control M} → p.caller ≡ waiting → Step p (check p)
    joins : {p q : Control M} → p.caller ≡ joining → join_worker p p.worker ≡ some q → Step p q
    frees : {p : Control M} → p.caller ≡ idle → Step p (free_control p)
    stops : {p : Control M} → p.caller ≡ cancelling → Step p (cancel_worker p)

  pub data Reached : Control M → Type 0 where
    begun : (m : M) → Reached (decode_init m)
    later : {p q : Control M} → Reached p → Step p q → Reached q

-- A worker that neither waits nor has left.
abbrev pub IsActive : {M : Type 0} → Worker M → Type 0
IsActive created = Unit
IsActive (looping i n m) = Unit
IsActive (decoding i n w) = Unit
IsActive w = 1 ≤ 0

-- Where the caller and the worker stand, and what the flags say there. Between two calls there is no
-- worker, or one that waits for input. `misses` is where pthread_create has failed.
pub data IsOrdered {M : Type 0} (p : Control M) : Type 0 where
  rests : p.caller ≡ idle → p.worker ≡ absent → p.empty ≡ false → p.finished ≡ true → IsOrdered p
  starves :
      (i n : ℕ) (k : ℕ → Process M)
      → p.caller ≡ idle
      → p.worker ≡ blocked i n k
      → p.empty ≡ true
      → p.finished ≡ false
      → IsOrdered p
  creates :
      p.caller ≡ called true → p.worker ≡ absent → p.empty ≡ false → p.finished ≡ true → IsOrdered p
  wakes :
      (i n : ℕ) (k : ℕ → Process M)
      → p.caller ≡ called false
      → p.worker ≡ blocked i n k
      → p.empty ≡ true
      → p.finished ≡ false
      → IsOrdered p
  runs : p.caller ≡ waiting → IsActive p.worker → p.empty ≡ false → p.finished ≡ false → IsOrdered p
  sleeps :
      (i n : ℕ) (k : ℕ → Process M)
      → p.caller ≡ waiting
      → p.worker ≡ blocked i n k
      → p.finished ≡ false
      → IsOrdered p
  misses :
      p.caller ≡ waiting → p.worker ≡ absent → p.empty ≡ false → p.finished ≡ false → IsOrdered p
  leaves :
      p.caller ≡ waiting → p.worker ≡ exited → p.empty ≡ false → p.finished ≡ true → IsOrdered p
  ends : p.caller ≡ joining → p.worker ≡ exited → p.empty ≡ false → p.finished ≡ true → IsOrdered p
  ending : p.caller ≡ cancelling → IsOrdered p
  closed : p.caller ≡ freed → p.worker ≡ absent → p.finished ≡ true → IsOrdered p
