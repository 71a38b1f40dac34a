-- ===== src/Threads/Clock.antt =====
-- The times of ppmd_timedwait (src/lib/buffer/ThreadDecoder.c), whose clock is the system's.
use pyppmd.Base.{
  ℕ, ◌+◌, ◌-◌, ◌*◌, ◌/◌, ◌≤◌, ◌<◌, ◌≡◌, Option, none, some, ltb, leb, ◌==◌, if◌then◌else◌, u32,
  arith,
}

abbrev pub second : ℕ
second = 1000000000

-- `abstime`, from what the clock says; seconds and nanoseconds.
unfoldable pub deadline : (tv_sec tv_nsec nsec : ℕ) → ℕ × ℕ
deadline tv_sec tv_nsec nsec =
    let sum = tv_nsec + nsec in if leb second sum then (tv_sec + 1, sum - second) else (tv_sec, sum)

-- On Windows, with a DWORD; `none` is INFINITE.
unfoldable pub nsec_to_ms : (nsec : ℕ) → Option ℕ
nsec_to_ms nsec =
    let t = u32 (nsec / 1000000) in if nsec == 0 then none else if ltb t 0 then some 1 else some t

-- From a time of the clock, whose nanoseconds are less than a second, a wait of at most a second ends
-- at a time whose nanoseconds are less than a second, and that is later by the wait.
pub deadline-sum :
    (tv_sec tv_nsec nsec : ℕ)
    → tv_nsec < second
    → nsec ≤ second
    → ((deadline tv_sec tv_nsec nsec).1 < second)
      × ((deadline tv_sec tv_nsec nsec).0 * second + (deadline tv_sec tv_nsec nsec).1
          ≡ tv_sec * second + tv_nsec + nsec)
unfolding deadline
deadline-sum tv_sec tv_nsec nsec clock wait = ground arith
