-- ===== src/Threads/Work.antt =====
-- The worker's steps keep the order.
use pyppmd.Base.{
  ℕ, ◌≡◌, inl, inr, refl, sym, ap, ◌∙◌, true, false, not, ◌&&◌, none, some, List, [], ◌∷◌, ltb,
  ◌==◌, Bool-cases, arith,
}
use mathlib.Core.Option.{some-injective}
use mathlib.Core.Path.{subst}
use pyppmd.Ppmd7.Decode.{Decoded, byte, end_mark, data_error}
use pyppmd.Threads.Control.{
  Process, asks, gives, Worker, absent, created, looping, decoding, blocked, exited, waiting,
  Control, leave, read_or_block, after_symbol, work,
}
use pyppmd.Threads.Order.{
  IsActive, IsOrdered, rests, starves, creates, wakes, runs, sleeps, misses, leaves, ends, ending,
  closed,
}

module _ {M : Type 0} (decode : M → Process M) (p : Control M) where
  read_or_block-IsOrdered :
      (i n : ℕ) (k : ℕ → Process M) (input : List ℕ)
      → p.caller ≡ waiting
      → p.empty ≡ false
      → p.finished ≡ false
      → IsOrdered (read_or_block p i n k input)
  unfolding read_or_block
  read_or_block-IsOrdered i n k [] c e f = sleeps i n k c refl f
  read_or_block-IsOrdered i n k (b ∷ bs) c e f = runs c tt e f

  after_symbol-IsOrdered :
      (i n : ℕ) (r : Decoded) (m : M)
      → p.caller ≡ waiting
      → p.empty ≡ false
      → p.finished ≡ false
      → IsOrdered (after_symbol p i n r m)
  unfolding after_symbol leave
  after_symbol-IsOrdered i n (byte x) m c e f = runs c tt e f
  after_symbol-IsOrdered i n end_mark m c e f = leaves c refl e refl
  after_symbol-IsOrdered i n data_error m c e f = leaves c refl e refl

  active-IsOrdered :
      (w : Worker M) (q : Control M)
      → IsActive w
      → p.caller ≡ waiting
      → p.empty ≡ false
      → p.finished ≡ false
      → work decode w p ≡ some q
      → IsOrdered q
  unfolding work leave
  active-IsOrdered absent q active c e f done = absurd (omega (arith, active))
  active-IsOrdered created q active c e f done =
      subst IsOrdered (some-injective _ _ done) (runs c tt e refl)
  active-IsOrdered (looping i n m) q active c e f done =
      elim (Bool-cases (ltb i n && not (p.room == 0))) [
        | inl more ↦ subst IsOrdered (some-injective _ _ (rw more at done)) (runs c tt e f)
        | inr over ↦ subst IsOrdered (some-injective _ _ (rw over at done)) (leaves c refl e refl)
      ]
  active-IsOrdered (decoding i n (asks k)) q active c e f done =
      subst IsOrdered (some-injective _ _ done) (read_or_block-IsOrdered i n k p.input c e f)
  active-IsOrdered (decoding i n (gives r m)) q active c e f done =
      subst IsOrdered (some-injective _ _ done) (after_symbol-IsOrdered i n r m c e f)
  active-IsOrdered (blocked i n k) q active c e f done = absurd (omega (arith, active))
  active-IsOrdered exited q active c e f done = absurd (omega (arith, active))

  -- A waiting worker goes on only where the flag has been cleared.
  blocked-IsOrdered :
      (i n : ℕ) (k : ℕ → Process M) (q : Control M)
      → p.caller ≡ waiting
      → p.finished ≡ false
      → work decode (blocked i n k) p ≡ some q
      → IsOrdered q
  unfolding work
  blocked-IsOrdered i n k q c f done = elim (Bool-cases p.empty) [
    | inl still ↦ cc (rw still at done)
    | inr cleared ↦ subst IsOrdered (some-injective _ _ (rw cleared at done)) (runs c tt refl f)
  ]

  stuck-absurd :
      {B : Type 0} (w : Worker M) (q : Control M)
      → p.worker ≡ w
      → work decode w p ≡ none
      → work decode p.worker p ≡ some q
      → B
  stuck-absurd w q same stuck done = cc

  blocked-none :
      (i n : ℕ) (k : ℕ → Process M) → p.empty ≡ true → work decode (blocked i n k) p ≡ none
  unfolding work
  blocked-none i n k e = rw e refl

  read_or_block-caller :
      (i n : ℕ) (k : ℕ → Process M) (input : List ℕ)
      → (read_or_block p i n k input).caller ≡ p.caller
  unfolding read_or_block
  read_or_block-caller i n k [] = refl
  read_or_block-caller i n k (b ∷ bs) = refl

  after_symbol-caller : (i n : ℕ) (r : Decoded) (m : M) → (after_symbol p i n r m).caller ≡ p.caller
  unfolding after_symbol leave
  after_symbol-caller i n (byte x) m = refl
  after_symbol-caller i n end_mark m = refl
  after_symbol-caller i n data_error m = refl

  abbrev IsSameCaller : Control M → Type 0
  IsSameCaller q = q.caller ≡ p.caller

  work-caller : (w : Worker M) (q : Control M) → work decode w p ≡ some q → q.caller ≡ p.caller
  unfolding work leave
  work-caller absent q done = cc done
  work-caller created q done = subst IsSameCaller (some-injective _ _ done) refl
  work-caller (looping i n m) q done = elim (Bool-cases (ltb i n && not (p.room == 0))) [
    | inl more ↦ subst IsSameCaller (some-injective _ _ (rw more at done)) refl
    | inr over ↦ subst IsSameCaller (some-injective _ _ (rw over at done)) refl
  ]
  work-caller (decoding i n (asks k)) q done =
      subst IsSameCaller (some-injective _ _ done) (read_or_block-caller i n k p.input)
  work-caller (decoding i n (gives r m)) q done =
      subst IsSameCaller (some-injective _ _ done) (after_symbol-caller i n r m)
  work-caller (blocked i n k) q done = elim (Bool-cases p.empty) [
    | inl still ↦ cc (rw still at done)
    | inr cleared ↦ subst IsSameCaller (some-injective _ _ (rw cleared at done)) refl
  ]
  work-caller exited q done = cc done

  pub work-IsOrdered : (q : Control M) → IsOrdered p → work decode p.worker p ≡ some q → IsOrdered q
  unfolding work
  work-IsOrdered q (rests c w e f) done = stuck-absurd absent q w refl done
  work-IsOrdered q (starves i n k c w e f) done =
      stuck-absurd (blocked i n k) q w (blocked-none i n k e) done
  work-IsOrdered q (creates c w e f) done = stuck-absurd absent q w refl done
  work-IsOrdered q (wakes i n k c w e f) done =
      stuck-absurd (blocked i n k) q w (blocked-none i n k e) done
  work-IsOrdered q (runs c active e f) done = active-IsOrdered p.worker q active c e f done
  work-IsOrdered q (sleeps i n k c w f) done =
      blocked-IsOrdered i n k q c f (ap (λ v. work decode v p) (sym w) ∙ done)
  work-IsOrdered q (misses c w e f) done = stuck-absurd absent q w refl done
  work-IsOrdered q (ending c) done = ending (work-caller p.worker q done ∙ c)
  work-IsOrdered q (leaves c w e f) done = stuck-absurd exited q w refl done
  work-IsOrdered q (ends c w e f) done = stuck-absurd exited q w refl done
  work-IsOrdered q (closed c w f) done = stuck-absurd absent q w refl done
