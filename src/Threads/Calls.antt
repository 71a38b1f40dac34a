-- ===== src/Threads/Calls.antt =====
-- The caller's steps keep the order.
use pyppmd.Base.{ℕ, ◌≡◌, inl, inr, refl, sym, ap, ◌∙◌, Bool, true, false, some, List, Bool-cases}
use mathlib.Core.Option.{some-injective}
use mathlib.Core.Path.{subst}
use pyppmd.Threads.Control.{
  absent, idle, called, waiting, joining, Control, set_buffers, enter, begin, check, join_worker,
  free_control, cancel_worker,
}
use pyppmd.Threads.Order.{
  IsOrdered, rests, starves, creates, wakes, runs, sleeps, misses, leaves, ends, ending, closed,
}

module _ {M : Type 0} (p : Control M) where
  pub enter-IsOrdered : (n : ℕ) → p.caller ≡ idle → IsOrdered p → IsOrdered (enter p n)
  unfolding enter
  enter-IsOrdered n here (rests c w e f) = creates (ap called f) w e f
  enter-IsOrdered n here (starves i m k c w e f) = wakes i m k (ap called f) w e f
  enter-IsOrdered n here (creates c w e f) = cc
  enter-IsOrdered n here (wakes i m k c w e f) = cc
  enter-IsOrdered n here (runs c active e f) = cc
  enter-IsOrdered n here (sleeps i m k c w f) = cc
  enter-IsOrdered n here (leaves c w e f) = cc
  enter-IsOrdered n here (misses c w e f) = cc
  enter-IsOrdered n here (ending c) = cc
  enter-IsOrdered n here (ends c w e f) = cc
  enter-IsOrdered n here (closed c w f) = cc

  pub begin-IsOrdered :
      (b thread_made : Bool) → p.caller ≡ called b → IsOrdered p → IsOrdered (begin p b thread_made)
  unfolding begin
  begin-IsOrdered true true here (creates c w e f) = runs refl tt e refl
  begin-IsOrdered true false here (creates c w e f) = misses refl w e refl
  begin-IsOrdered false made here (wakes i m k c w e f) = sleeps i m k refl w f
  begin-IsOrdered true made here (wakes i m k c w e f) = cc
  begin-IsOrdered false made here (creates c w e f) = cc
  begin-IsOrdered b made here (rests c w e f) = cc
  begin-IsOrdered b made here (starves i m k c w e f) = cc
  begin-IsOrdered b made here (runs c active e f) = cc
  begin-IsOrdered b made here (sleeps i m k c w f) = cc
  begin-IsOrdered b made here (leaves c w e f) = cc
  begin-IsOrdered b made here (misses c w e f) = cc
  begin-IsOrdered b made here (ending c) = cc
  begin-IsOrdered b made here (ends c w e f) = cc
  begin-IsOrdered b made here (closed c w f) = cc

  pub check-IsOrdered : p.caller ≡ waiting → IsOrdered p → IsOrdered (check p)
  unfolding check
  check-IsOrdered here (runs c active e f) = rw (e, f) (runs c active refl refl)
  check-IsOrdered here (sleeps i m k c w f) = elim (Bool-cases p.empty) [
    | inl e ↦ rw e (starves i m k refl w refl f)
    | inr e ↦ rw (e, f) (sleeps i m k c w refl)
  ]
  check-IsOrdered here (leaves c w e f) = rw (e, f) (ends refl w refl refl)
  check-IsOrdered here (misses c w e f) = rw (e, f) (misses c w refl refl)
  check-IsOrdered here (ending c) = cc
  check-IsOrdered here (rests c w e f) = cc
  check-IsOrdered here (starves i m k c w e f) = cc
  check-IsOrdered here (creates c w e f) = cc
  check-IsOrdered here (wakes i m k c w e f) = cc
  check-IsOrdered here (ends c w e f) = cc
  check-IsOrdered here (closed c w f) = cc

  pub set_buffers-IsOrdered :
      (input : List ℕ) (room : ℕ) → IsOrdered p → IsOrdered (set_buffers p input room)
  unfolding set_buffers
  set_buffers-IsOrdered input room (rests c w e f) = rests c w e f
  set_buffers-IsOrdered input room (starves i m k c w e f) = starves i m k c w e f
  set_buffers-IsOrdered input room (creates c w e f) = creates c w e f
  set_buffers-IsOrdered input room (wakes i m k c w e f) = wakes i m k c w e f
  set_buffers-IsOrdered input room (runs c active e f) = runs c active e f
  set_buffers-IsOrdered input room (sleeps i m k c w f) = sleeps i m k c w f
  set_buffers-IsOrdered input room (leaves c w e f) = leaves c w e f
  set_buffers-IsOrdered input room (misses c w e f) = misses c w e f
  set_buffers-IsOrdered input room (ending c) = ending c
  set_buffers-IsOrdered input room (ends c w e f) = ends c w e f
  set_buffers-IsOrdered input room (closed c w f) = closed c w f

  pub free_control-IsOrdered : p.caller ≡ idle → IsOrdered p → IsOrdered (free_control p)
  unfolding free_control
  free_control-IsOrdered here (rests c w e f) = rw f (closed refl w refl)
  free_control-IsOrdered here (starves i m k c w e f) = rw f (ending refl)
  free_control-IsOrdered here (creates c w e f) = cc
  free_control-IsOrdered here (wakes i m k c w e f) = cc
  free_control-IsOrdered here (runs c active e f) = cc
  free_control-IsOrdered here (sleeps i m k c w f) = cc
  free_control-IsOrdered here (leaves c w e f) = cc
  free_control-IsOrdered here (misses c w e f) = cc
  free_control-IsOrdered here (ending c) = cc
  free_control-IsOrdered here (ends c w e f) = cc
  free_control-IsOrdered here (closed c w f) = cc

  pub cancel_worker-IsOrdered : IsOrdered (cancel_worker p)
  unfolding cancel_worker
  cancel_worker-IsOrdered = closed refl refl refl

  pub join_worker-IsOrdered :
      (q : Control M)
      → p.caller ≡ joining
      → IsOrdered p
      → join_worker p p.worker ≡ some q
      → IsOrdered q
  unfolding join_worker
  join_worker-IsOrdered q here (ends c w e f) done =
      let same : some (record p { worker = absent; caller = idle }) ≡ some q =
        ap (λ v. join_worker p v) (sym w) ∙ done in
      subst IsOrdered (some-injective _ _ same) (rests refl refl e f)
  join_worker-IsOrdered q here (rests c w e f) done = cc
  join_worker-IsOrdered q here (starves i m k c w e f) done = cc
  join_worker-IsOrdered q here (creates c w e f) done = cc
  join_worker-IsOrdered q here (wakes i m k c w e f) done = cc
  join_worker-IsOrdered q here (runs c active e f) done = cc
  join_worker-IsOrdered q here (sleeps i m k c w f) done = cc
  join_worker-IsOrdered q here (leaves c w e f) done = cc
  join_worker-IsOrdered q here (misses c w e f) done = cc
  join_worker-IsOrdered q here (ending c) done = cc
  join_worker-IsOrdered q here (closed c w f) done = cc
