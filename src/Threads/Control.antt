-- ===== src/Threads/Control.antt =====
-- The worker (Ppmd7T_decode_run, Ppmd8T_decode_run and Ppmd_thread_Reader) and the caller
-- (Ppmd7T_decode, Ppmd8T_decode, Ppmd7T_Free, Ppmd8T_Free), which differ in the decoder only. What
-- stands between locking and unlocking the mutex is one step. The calls on one object come one after
-- the other. A wait may end at any time, as that with a time limit does.
use pyppmd.Base.{
  ℕ, ◌+◌, ◌-◌, Bool, true, false, not, ◌&&◌, Option, none, some, List, [], ◌∷◌, ◌++◌, ltb, ◌==◌,
  if◌then◌else◌,
}
use pyppmd.Ppmd7.Decode.{Decoded, byte, end_mark, data_error}
use pyppmd.RangeCoder.Dec.{read}

-- A call of the symbol decoder, as it asks its reader for bytes.
pub data Process (M : Type 0) : Type 0 where
  asks : (ℕ → Process M) → Process M
  gives : Decoded → M → Process M

-- `result`: a number of bytes, -1 and -2.
pub data Outcome : Type 0 where
  produced : ℕ → Outcome
  eof : Outcome
  failure : Outcome

-- Where the worker stands: there is none, it has not locked yet, it is at its loop or in the symbol
-- decoder, it waits for input, or it has left its last lock.
pub data Worker (M : Type 0) : Type 0 where
  absent : Worker M
  created : Worker M
  looping : (i max_length : ℕ) → M → Worker M
  decoding : (i max_length : ℕ) → Process M → Worker M
  blocked : (i max_length : ℕ) → (ℕ → Process M) → Worker M
  exited : Worker M

-- Where the caller stands: outside, with what it has read of `finished`, at its wait, at the join,
-- at the cancelling of the worker, or behind the end of the object.
pub data Caller : Type 0 where
  idle : Caller
  called : Bool → Caller
  waiting : Caller
  joining : Caller
  cancelling : Caller
  freed : Caller

-- `input` is what is left of the input buffer and `room` of the output buffer.
pub record Control (M : Type 0) : Type 0 where
  pub worker : Worker M
  pub caller : Caller
  pub empty : Bool
  pub finished : Bool
  pub result : Outcome
  pub max_length : ℕ
  pub model : M
  pub input : List ℕ
  pub output : List ℕ
  pub room : ℕ

-- `Ppmd_thread_decode_init`
unfoldable pub decode_init : {M : Type 0} → M → Control M
decode_init m = record {
  worker = absent;
  caller = idle;
  empty = false;
  finished = true;
  result = produced 0;
  max_length = 0;
  model = m;
  input = [];
  output = [];
  room = 0;
}

-- Behind `exit:`.
unfoldable pub leave : {M : Type 0} → Control M → M → Outcome → Control M
leave p m r = record p { worker = exited; finished = true; result = r; model = m }

-- A read: the worker goes on, or says that the input is empty.
unfoldable pub read_or_block :
    {M : Type 0} → Control M → (i max_length : ℕ) → (ℕ → Process M) → List ℕ → Control M
read_or_block p i max_length k [] = record p { worker = blocked i max_length k; empty = true }
read_or_block p i max_length k (b ∷ bs) = record p {
  worker = decoding i max_length (k b);
  input = bs;
}

unfoldable pub after_symbol :
    {M : Type 0} → Control M → (i max_length : ℕ) → Decoded → M → Control M
unfolding leave
after_symbol p i max_length (byte c) m = record p {
  worker = looping (i + 1) max_length m;
  output = p.output ++ c ∷ [];
  room = p.room - 1;
}
after_symbol p i max_length end_mark m = leave p m eof
after_symbol p i max_length data_error m = leave p m failure

-- The worker's next step, `none` where it cannot go on.
unfoldable pub work :
    {M : Type 0} → (decode : M → Process M) → Worker M → Control M → Option (Control M)
unfolding leave read_or_block after_symbol read
work decode absent p = none
work decode created p =
    some (record p { worker = looping 0 p.max_length p.model; finished = false })
work decode (looping i max_length m) p = some (
    if ltb i max_length && not (p.room == 0)
    then record p { worker = decoding i max_length (decode m) }
    else leave p m (produced i))
work decode (decoding i max_length (asks k)) p = some (read_or_block p i max_length k p.input)
work decode (decoding i max_length (gives c m)) p = some (after_symbol p i max_length c m)
work decode (blocked i max_length k) p =
    if p.empty
    then none
    else some (
        let (b, bs) = read p.input in record p { worker = decoding i max_length (k b); input = bs })
work decode exited p = none

-- Between two calls the buffers are set.
unfoldable pub set_buffers : {M : Type 0} → Control M → (input : List ℕ) → (room : ℕ) → Control M
set_buffers p input room = record p { input = input; room = room }

-- The first lock of the caller.
unfoldable pub enter : {M : Type 0} → Control M → (max_length : ℕ) → Control M
enter p max_length = record p {
  caller = called p.finished;
  max_length = max_length;
  result = produced 0;
}

-- The second one: the worker is created or woken. What pthread_create answers, which may fail, is
-- not looked at.
unfoldable pub begin : {M : Type 0} → Control M → (exited thread_made : Bool) → Control M
begin p true true = record p { caller = waiting; worker = created; finished = false }
begin p true false = record p { caller = waiting; finished = false }
begin p false thread_made = record p { caller = waiting; empty = false }

-- A round of the caller's loop: it returns 0, goes to the join, or waits again.
unfoldable pub check : {M : Type 0} → Control M → Control M
check p =
    if p.empty
    then record p { caller = idle }
    else if p.finished
    then record p { caller = joining }
    else p

-- The join, behind which the call returns the result.
unfoldable pub join_worker : {M : Type 0} → Control M → Worker M → Option (Control M)
join_worker p exited = some (record p { worker = absent; caller = idle })
join_worker p w = none

-- Ppmd7T_Free and Ppmd8T_Free: a worker that has not finished is woken,
unfoldable pub free_control : {M : Type 0} → Control M → Control M
free_control p =
    if p.finished
    then record p { caller = freed }
    else record p { caller = cancelling; empty = false }

-- and, wherever it stands by then, cancelled and joined.
unfoldable pub cancel_worker : {M : Type 0} → Control M → Control M
cancel_worker p = record p { caller = freed; worker = absent; finished = true }
