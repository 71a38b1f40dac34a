-- ===== src/Tests/Threads.antt =====
-- A decoder that returns each byte it reads, fed with one byte, and asked for two.
use pyppmd.Base.{ℕ, ◌+◌, ◌*◌, ◌<◌, ◌≡◌, ◌⊎◌, refl, inl, true, false, none, some, [], ◌∷◌, arith}
use pyppmd.Ppmd7.Decode.{byte}
use pyppmd.Threads.Control.{
  Process, asks, gives, Control, absent, blocked, waiting, produced, decode_init, set_buffers,
  enter, begin, work, leave, read_or_block, after_symbol,
}
use pyppmd.Threads.Order.{works, sets, enters, begins, Reached, begun, later, IsOrdered}
use pyppmd.Threads.Clock.{deadline, nsec_to_ms, deadline-sum}
use pyppmd.Threads.Plain.{Served, Run, during}
use pyppmd.Threads.Replay.{Served-Run}
use pyppmd.Threads.Safety.{
  Reached-IsOrdered, Reached-alone, IsReturning, IsForsaken, Reached-IsReturning,
}

abbrev echo : ℕ → Process ℕ
echo m = asks (λ b. gives (byte b) m)

abbrev asked : Control ℕ
asked = enter (set_buffers (decode_init 0) (5 ∷ []) 2) 2

asked-Reached : Reached echo asked
unfolding decode_init set_buffers
asked-Reached = later (later (begun 0) (sets (5 ∷ []) 2 refl)) (enters 2 refl)

Reached-alone_example : asked.worker ≡ absent
unfolding enter set_buffers decode_init
Reached-alone_example = Reached-alone echo asked-Reached (inl refl)

-- One byte is decoded, and the thread waits for the next one.
abbrev starved : Control ℕ
starved = record {
  worker = blocked 1 2 (λ b. gives (byte b) 0);
  caller = waiting;
  empty = true;
  finished = false;
  result = produced 0;
  max_length = 2;
  model = 0;
  input = [];
  output = 5 ∷ [];
  room = 1;
}

starved-Reached : Reached echo starved
unfolding decode_init set_buffers enter begin work leave read_or_block after_symbol
starved-Reached =
    later
      (later
        (later
          (later
            (later (later (later asked-Reached (begins {b = true} true refl)) (works refl))
              (works refl))
            (works refl))
          (works refl))
        (works refl))
      (works refl)

Reached-IsOrdered_example : IsOrdered starved
Reached-IsOrdered_example = Reached-IsOrdered echo starved-Reached

starved_stuck : work echo starved.worker starved ≡ none
unfolding work
starved_stuck = refl

Reached-IsReturning_example : IsReturning starved ⊎ IsForsaken starved
Reached-IsReturning_example = Reached-IsReturning echo starved-Reached refl starved_stuck

-- The same steps with the byte that they take.
starved-Served : Served echo 0 starved (5 ∷ [])
unfolding decode_init set_buffers enter begin work leave read_or_block after_symbol
starved-Served =
    Served.works
      (Served.works
        (Served.works
          (Served.works
            (Served.works
              (Served.works
                (Served.creates (Served.enters 2 (Served.sets (5 ∷ []) 2 Served.begun refl) refl)
                  refl)
                refl)
              refl)
            refl)
          refl)
        refl)
      refl

Served-Run_example : Run echo 0 (5 ∷ []) (5 ∷ []) (during (asks (λ b. gives (byte b) 0)))
Served-Run_example = Served-Run echo 0 starved-Served

deadline-sum_example :
    ((deadline 5 999990000 50000).1 < 1000000000)
    × ((deadline 5 999990000 50000).0 * 1000000000 + (deadline 5 999990000 50000).1
        ≡ 5 * 1000000000 + 999990000 + 50000)
deadline-sum_example = deadline-sum 5 999990000 50000 (omega arith) (omega arith)

-- The caller's wait of 50000 ns does not sleep on Windows.
nsec_to_ms_50000 : nsec_to_ms 50000 ≡ some 0
unfolding nsec_to_ms
nsec_to_ms_50000 = refl
