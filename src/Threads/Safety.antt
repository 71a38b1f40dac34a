-- ===== src/Threads/Safety.antt =====
-- What holds in every order of the steps.
use pyppmd.Base.{
  ℕ, ◌≤◌, ◌≡◌, ◌⊎◌, inl, inr, refl, sym, ap, ◌∙◌, Bool, true, false, not, none, some, Bool-cases,
  if◌then◌else◌, arith,
}
use pyppmd.Threads.Control.{
  Process, asks, gives, Worker, absent, created, looping, decoding, blocked, exited, Caller, idle,
  called, waiting, joining, freed, Control, decode_init, work, check, join_worker,
}
use pyppmd.Threads.Order.{
  Step, works, sets, enters, begins, checks, joins, frees, stops, Reached, begun, later, IsActive,
  IsOrdered, rests, starves, creates, wakes, runs, sleeps, misses, leaves, ends, ending, closed,
}
use pyppmd.Threads.Work.{work-IsOrdered}
use pyppmd.Threads.Calls.{
  enter-IsOrdered, begin-IsOrdered, check-IsOrdered, set_buffers-IsOrdered, free_control-IsOrdered,
  cancel_worker-IsOrdered, join_worker-IsOrdered,
}

Step-IsOrdered :
    {M : Type 0} (decode : M → Process M) {p q : Control M}
    → IsOrdered p
    → Step decode p q
    → IsOrdered q
Step-IsOrdered decode {p} {q} h (works done) = work-IsOrdered decode p q h done
Step-IsOrdered decode {p} h (sets input room here) = set_buffers-IsOrdered p input room h
Step-IsOrdered decode {p} h (enters n here) = enter-IsOrdered p n here h
Step-IsOrdered decode {p} h (begins {b = b} made here) = begin-IsOrdered p b made here h
Step-IsOrdered decode {p} h (checks here) = check-IsOrdered p here h
Step-IsOrdered decode {p} {q} h (joins here done) = join_worker-IsOrdered p q here h done
Step-IsOrdered decode {p} h (frees here) = free_control-IsOrdered p here h
Step-IsOrdered decode {p} h (stops here) = cancel_worker-IsOrdered p

-- Whatever the order of the steps of worker and caller, the flags say where the two stand: between
-- two calls there is no worker, with `finished` set, or one that waits for input, with `empty` set;
-- and while a call waits, `finished` is set only behind the worker's last lock.
pub Reached-IsOrdered :
    {M : Type 0} (decode : M → Process M) {p : Control M} → Reached decode p → IsOrdered p
unfolding decode_init
Reached-IsOrdered decode (begun m) = rests refl refl refl refl
Reached-IsOrdered decode (later reached step) =
    Step-IsOrdered decode (Reached-IsOrdered decode reached) step

-- The next round of the caller's loop ends it: with 0 where the worker waits for input, and else at
-- the join, which ends as well.
abbrev pub IsReturning : {M : Type 0} → Control M → Type 0
IsReturning {M} p =
    ((i : ℕ) × (n : ℕ) × (k : ℕ → Process M) × (p.worker ≡ blocked i n k)
      × ((check p).caller ≡ idle))
    ⊎ (((check p).caller ≡ joining)
        × (q : Control M) × (join_worker (check p) (check p).worker ≡ some q)
        × (q.caller ≡ idle)
        × (q.result ≡ p.result))

-- The caller's loop goes round without an end: there is no worker, and a round changes nothing.
abbrev pub IsForsaken : {M : Type 0} → Control M → Type 0
IsForsaken p = (p.worker ≡ absent) × (check p ≡ p)

-- Where a thread may be left: anywhere but where one is created, and behind the end.
abbrev holds_thread : Caller → Bool
holds_thread (called b) = not b
holds_thread freed = false
holds_thread c = true

elsewhere :
    {M : Type 0} {B : Type 0} (p : Control M)
    → holds_thread p.caller ≡ true
    → (p.caller ≡ called true) ⊎ (p.caller ≡ freed)
    → B
elsewhere p holds (inl here) = cc (rw here at holds)
elsewhere p holds (inr here) = cc (rw here at holds)

IsOrdered-alone :
    {M : Type 0} (p : Control M)
    → IsOrdered p
    → (p.caller ≡ called true) ⊎ (p.caller ≡ freed)
    → p.worker ≡ absent
IsOrdered-alone p (rests c w e f) here = w
IsOrdered-alone p (creates c w e f) here = w
IsOrdered-alone p (closed c w f) here = w
IsOrdered-alone p (starves i n k c w e f) here = elsewhere p (ap holds_thread c) here
IsOrdered-alone p (wakes i n k c w e f) here = elsewhere p (ap holds_thread c) here
IsOrdered-alone p (runs c active e f) here = elsewhere p (ap holds_thread c) here
IsOrdered-alone p (sleeps i n k c w f) here = elsewhere p (ap holds_thread c) here
IsOrdered-alone p (misses c w e f) here = elsewhere p (ap holds_thread c) here
IsOrdered-alone p (ending c) here = elsewhere p (ap holds_thread c) here
IsOrdered-alone p (leaves c w e f) here = elsewhere p (ap holds_thread c) here
IsOrdered-alone p (ends c w e f) here = elsewhere p (ap holds_thread c) here

module _ {M : Type 0} (decode : M → Process M) (p : Control M) (here : p.caller ≡ waiting) where
  -- An active worker can go on.
  active-works : (w : Worker M) → IsActive w → work decode w p ≡ none → 1 ≤ 0
  unfolding work
  active-works absent active stuck = active
  active-works created active stuck = cc
  active-works (looping i n m) active stuck = cc
  active-works (decoding i n (asks k)) active stuck = cc
  active-works (decoding i n (gives r m)) active stuck = cc
  active-works (blocked i n k) active stuck = active
  active-works exited active stuck = active

  blocked-empty :
      (i n : ℕ) (k : ℕ → Process M) → work decode (blocked i n k) p ≡ none → p.empty ≡ true
  unfolding work
  blocked-empty i n k stuck = elim (Bool-cases p.empty) [ inl e ↦ e | inr e ↦ cc (rw e at stuck) ]

  check-same : p.empty ≡ false → p.finished ≡ false → check p ≡ p
  unfolding check
  check-same e f =
      let joins_or_waits : Bool → Control M = λ b. if b then record p { caller = joining } else p in
      ap (λ b. if b then record p { caller = idle } else joins_or_waits p.finished) e
      ∙ ap joins_or_waits f

  IsOrdered-IsReturning : work decode p.worker p ≡ none → IsOrdered p → IsReturning p ⊎ IsForsaken p
  unfolding check join_worker
  IsOrdered-IsReturning stuck (runs c active e f) =
      absurd (omega (arith, active-works p.worker active stuck))
  IsOrdered-IsReturning stuck (sleeps i n k c w f) =
      let e = blocked-empty i n k (ap (λ v. work decode v p) (sym w) ∙ stuck) in
      inl (inl (i, n, k, w, rw e refl))
  IsOrdered-IsReturning stuck (leaves c w e f) = inl (
      inr (
        rw (e, f, w)
          (
            refl,
            record p { worker = absent; caller = idle; empty = false; finished = true },
            refl,
            refl,
            refl,
          )))
  IsOrdered-IsReturning stuck (misses c w e f) = inr (w, check-same e f)
  IsOrdered-IsReturning stuck (ending c) = cc
  IsOrdered-IsReturning stuck (rests c w e f) = cc
  IsOrdered-IsReturning stuck (starves i n k c w e f) = cc
  IsOrdered-IsReturning stuck (creates c w e f) = cc
  IsOrdered-IsReturning stuck (wakes i n k c w e f) = cc
  IsOrdered-IsReturning stuck (ends c w e f) = cc
  IsOrdered-IsReturning stuck (closed c w f) = cc

-- Whatever the order of the steps, where the caller is about to create a thread, and where the object
-- is freed, no thread is left.
pub Reached-alone :
    {M : Type 0} (decode : M → Process M) {p : Control M}
    → Reached decode p
    → (p.caller ≡ called true) ⊎ (p.caller ≡ freed)
    → p.worker ≡ absent
Reached-alone decode {p} reached here = IsOrdered-alone p (Reached-IsOrdered decode reached) here

-- Where a call waits and the worker cannot go on, the next round of the caller's loop ends it: with 0
-- if the worker waits for input, and else at the join, which ends and returns the worker's result;
-- but where there is no worker, since pthread_create has failed, no round of the loop changes
-- anything.
pub Reached-IsReturning :
    {M : Type 0} (decode : M → Process M) {p : Control M}
    → Reached decode p
    → p.caller ≡ waiting
    → work decode p.worker p ≡ none
    → IsReturning p ⊎ IsForsaken p
Reached-IsReturning decode {p} reached here stuck =
    IsOrdered-IsReturning decode p here stuck (Reached-IsOrdered decode reached)
