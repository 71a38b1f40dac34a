-- ===== src/Threads/Replay.antt =====
-- The threaded decoder puts out what the plain one does.
use pyppmd.Base.{
  ℕ, ◌≤◌, ◌≡◌, refl, sym, Bool, true, false, not, ◌&&◌, Bool-cases, some, List, [], ◌∷◌, ◌++◌, ltb,
  ◌==◌, if◌then◌else◌, length, arith, inl, inr,
}
use mathlib.Core.List.{append-nil}
use mathlib.Core.Option.{some-injective}
use mathlib.Core.Path.{subst}
use pyppmd.Coding.{Decoded, byte, end_mark, data_error}
use pyppmd.RangeCoder.Dec.{read}
use pyppmd.Threads.Control.{
  Process, asks, gives, Worker, Caller, absent, created, looping, decoding, blocked, exited, idle,
  called, joining, Control, decode_init, work, set_buffers, enter, begin, check, join_worker, leave,
  read_or_block, after_symbol,
}
use pyppmd.Threads.Order.{
  Step, Reached, later, IsOrdered, rests, starves, runs, sleeps, leaves, ends, ending, closed,
}
use pyppmd.Threads.Safety.{Reached-IsOrdered}
use pyppmd.Threads.Plain.{
  during, Run, begins, calls, reads, returns, marks, fails, stage, first, consumed, Served, begun,
  works, sets, enters, creates, misses, wakes, checks, joins,
}

module _ {M : Type 0} (decode : M → Process M) (m0 : M) where
  Served-Reached : {p : Control M} {t : List ℕ} → Served decode m0 p t → Reached decode p
  Served-Reached begun = Reached.begun m0
  Served-Reached (works s done) = later (Served-Reached s) (Step.works done)
  Served-Reached (sets input room s here) = later (Served-Reached s) (Step.sets input room here)
  Served-Reached (enters n s here) = later (Served-Reached s) (Step.enters n here)
  Served-Reached (creates s here) = later (Served-Reached s) (Step.begins true here)
  Served-Reached (misses s here) = later (Served-Reached s) (Step.begins false here)
  Served-Reached (wakes s here input) = later (Served-Reached s) (Step.begins true here)
  Served-Reached (checks s here) = later (Served-Reached s) (Step.checks here)
  Served-Reached (joins s here done) = later (Served-Reached s) (Step.joins here done)

  -- The worker stands where the plain decoder does, and is not woken without input.
  abbrev IsFed : Worker M → (empty : Bool) → (input : List ℕ) → Type 0
  IsFed (blocked i n k) empty input = empty ≡ false → 1 ≤ length input
  IsFed w empty input = Unit

  abbrev IsFollowing : Control M → Worker M → (taken : List ℕ) → Type 0
  IsFollowing p w t = Run decode m0 t p.output (stage w p.model) × IsFed w p.empty p.input

  read_or_block-IsFollowing :
      (p : Control M) (i n : ℕ) (k : ℕ → Process M) (t input : List ℕ)
      → Run decode m0 t p.output (during (asks k))
      → IsFollowing
          (read_or_block p i n k input)
          (read_or_block p i n k input).worker
          (t ++ first input)
  unfolding read_or_block
  read_or_block-IsFollowing p i n k t [] run = (rw (append-nil t) run, λ e. cc e)
  read_or_block-IsFollowing p i n k t (b ∷ bs) run = (reads b run, tt)

  after_symbol-IsFollowing :
      (p : Control M) (i n : ℕ) (c : Decoded) (m : M) (t : List ℕ)
      → Run decode m0 t p.output (during (gives c m))
      → IsFollowing (after_symbol p i n c m) (after_symbol p i n c m).worker t
  unfolding after_symbol leave
  after_symbol-IsFollowing p i n (byte c) m t run = (returns run, tt)
  after_symbol-IsFollowing p i n end_mark m t run = (marks run, tt)
  after_symbol-IsFollowing p i n data_error m t run = (fails run, tt)

  woken-IsFollowing :
      (p : Control M) (i n : ℕ) (k : ℕ → Process M) (t input : List ℕ)
      → 1 ≤ length input
      → Run decode m0 t p.output (during (asks k))
      → Run decode m0 (t ++ first input) p.output (during (k (read input).0))
  unfolding read
  woken-IsFollowing p i n k t [] some_left run = absurd (omega arith)
  woken-IsFollowing p i n k t (b ∷ bs) some_left run = reads b run

  work-IsFollowing :
      (p q : Control M) (w : Worker M) (t : List ℕ)
      → work decode w p ≡ some q
      → IsFollowing p w t
      → IsFollowing q q.worker (t ++ consumed w p.input)
  unfolding work leave read_or_block after_symbol read
  work-IsFollowing p q absent t done h = cc done
  work-IsFollowing p q created t done (run, fed) =
      subst (λ (q : Control M). IsFollowing q q.worker (t ++ [])) (some-injective _ _ done)
        (rw (append-nil t) run, tt)
  work-IsFollowing p q (looping i n m) t done (run, fed) =
      elim (Bool-cases (ltb i n && not (p.room == 0))) [
        | inl more ↦
            subst (λ (q : Control M). IsFollowing q q.worker (t ++ []))
              (some-injective _ _ (rw more at done)) (rw (append-nil t) (calls run), tt)
        | inr full ↦
            subst (λ (q : Control M). IsFollowing q q.worker (t ++ []))
              (some-injective _ _ (rw full at done)) (rw (append-nil t) run, tt)
      ]
  work-IsFollowing p q (decoding i n (asks k)) t done (run, fed) =
      subst (λ (q : Control M). IsFollowing q q.worker (t ++ first p.input))
        (some-injective _ _ done) (read_or_block-IsFollowing p i n k t p.input run)
  work-IsFollowing p q (decoding i n (gives c m)) t done (run, fed) =
      subst (λ (q : Control M). IsFollowing q q.worker (t ++ [])) (some-injective _ _ done)
        (rw (append-nil t) (after_symbol-IsFollowing p i n c m t run))
  work-IsFollowing p q (blocked i n k) t done (run, fed) = elim (Bool-cases p.empty) [
    | inl still ↦ cc (rw still at done)
    | inr woken ↦
        subst (λ (q : Control M). IsFollowing q q.worker (t ++ first p.input))
          (some-injective _ _ (rw woken at done))
          (woken-IsFollowing p i n k t p.input (fed woken) run, tt)
  ]
  work-IsFollowing p q exited t done h = cc done

  idle-IsFed :
      {p : Control M} (input : List ℕ)
      → IsOrdered p
      → p.caller ≡ idle
      → IsFed p.worker p.empty input
  idle-IsFed input (rests here none_left e f) same = rw none_left tt
  idle-IsFed input (starves i n k here waits e f) same = rw (waits, e) (λ e'. cc e')
  idle-IsFed input (IsOrdered.creates here w e f) same = cc (rw here at same)
  idle-IsFed input (IsOrdered.wakes i n k here w e f) same = cc (rw here at same)
  idle-IsFed input (runs here w e f) same = cc (rw here at same)
  idle-IsFed input (sleeps i n k here w f) same = cc (rw here at same)
  idle-IsFed input (IsOrdered.misses here w e f) same = cc (rw here at same)
  idle-IsFed input (ending here) same = cc (rw here at same)
  idle-IsFed input (leaves here w e f) same = cc (rw here at same)
  idle-IsFed input (ends here w e f) same = cc (rw here at same)
  idle-IsFed input (closed here w f) same = cc (rw here at same)

  called-absent : {p : Control M} → IsOrdered p → p.caller ≡ called true → p.worker ≡ absent
  called-absent (rests here none_left e f) same = none_left
  called-absent (starves i n k here waits e f) same = cc (rw here at same)
  called-absent (IsOrdered.creates here w e f) same = w
  called-absent (IsOrdered.wakes i n k here w e f) same = cc (rw here at same)
  called-absent (runs here w e f) same = cc (rw here at same)
  called-absent (sleeps i n k here w f) same = cc (rw here at same)
  called-absent (IsOrdered.misses here w e f) same = cc (rw here at same)
  called-absent (ending here) same = cc (rw here at same)
  called-absent (leaves here w e f) same = cc (rw here at same)
  called-absent (ends here w e f) same = cc (rw here at same)
  called-absent (closed here w f) same = w

  woken-IsFed : (w : Worker M) (input : List ℕ) → 1 ≤ length input → IsFed w false input
  woken-IsFed absent input some_left = tt
  woken-IsFed created input some_left = tt
  woken-IsFed (looping i n m) input some_left = tt
  woken-IsFed (decoding i n w) input some_left = tt
  woken-IsFed (blocked i n k) input some_left = λ e. some_left
  woken-IsFed exited input some_left = tt

  -- A round of the caller's loop moves the caller only.
  abbrev next_caller : (empty finished : Bool) → Caller → Caller
  next_caller true finished c = idle
  next_caller false true c = joining
  next_caller false false c = c

  checked :
      (p : Control M) (e f : Bool)
      → (if e then record p { caller = idle } else if f then record p { caller = joining } else p)
        ≡ record p { caller = next_caller e f p.caller }
  checked p true f = refl
  checked p false true = refl
  checked p false false = refl

  check-caller :
      (p : Control M) → check p ≡ record p { caller = next_caller p.empty p.finished p.caller }
  unfolding check
  check-caller p = checked p p.empty p.finished

  join_worker-IsFollowing :
      (p q : Control M) (w : Worker M) (t : List ℕ)
      → join_worker p w ≡ some q
      → IsFollowing p w t
      → IsFollowing q q.worker t
  unfolding join_worker
  join_worker-IsFollowing p q absent t done h = cc done
  join_worker-IsFollowing p q created t done h = cc done
  join_worker-IsFollowing p q (looping i n m) t done h = cc done
  join_worker-IsFollowing p q (decoding i n w) t done h = cc done
  join_worker-IsFollowing p q (blocked i n k) t done h = cc done
  join_worker-IsFollowing p q exited t done (run, fed) =
      subst (λ (q : Control M). IsFollowing q q.worker t) (some-injective _ _ done) (run, tt)

  Served-IsFollowing :
      {p : Control M} {t : List ℕ} → Served decode m0 p t → IsFollowing p p.worker t
  unfolding decode_init set_buffers enter begin
  Served-IsFollowing begun = (begins, tt)
  Served-IsFollowing (works {p = p} {q = q} {t = t} s done) =
      work-IsFollowing p q p.worker t done (Served-IsFollowing s)
  Served-IsFollowing (sets input room s here) =
      let (run, fed) = Served-IsFollowing s in
      (run, idle-IsFed input (Reached-IsOrdered decode (Served-Reached s)) here)
  Served-IsFollowing (enters n s here) = Served-IsFollowing s
  Served-IsFollowing (creates {p = p} {t = t} s here) =
      let (run, fed) = Served-IsFollowing s in
      let none_left = called-absent (Reached-IsOrdered decode (Served-Reached s)) here in
      (subst (λ w. Run decode m0 t p.output (stage w p.model)) none_left run, tt)
  Served-IsFollowing (misses s here) = Served-IsFollowing s
  Served-IsFollowing (wakes {p = p} s here some_left) =
      let (run, fed) = Served-IsFollowing s in (run, woken-IsFed p.worker p.input some_left)
  Served-IsFollowing (checks {p = p} {t = t} s here) =
      subst (λ (q : Control M). IsFollowing q q.worker t) (sym (check-caller p))
        (Served-IsFollowing s)
  Served-IsFollowing (joins {p = p} {q = q} {t = t} s here done) =
      join_worker-IsFollowing p q p.worker t done (Served-IsFollowing s)

  -- Whatever the order of the steps of worker and caller, and however many calls it takes, where each
  -- call that wakes the worker has input for it: what the threaded decoder has put out is what the
  -- plain decoder puts out for the bytes that the worker has taken, and the worker stands where that
  -- one does.
  pub Served-Run :
      {p : Control M} {t : List ℕ}
      → Served decode m0 p t
      → Run decode m0 t p.output (stage p.worker p.model)
  Served-Run s = (Served-IsFollowing s).0
