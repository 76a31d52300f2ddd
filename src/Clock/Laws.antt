-- ===== src/Clock/Laws.antt =====
-- The deadline of a wait on a semaphore (src/common/can4vscpobj.cpp).
use vscpl1drv_can4vscp.Prelude.{ℕ, ◌+◌, ◌*◌, ◌/◌, ◌%◌, ◌<◌, ◌≡◌, arith, Bool-cases, inl, inr, leb}
use vscpl1drv_can4vscp.Clock.{Timespec, carry, wait_deadline}

abbrev pub nanoseconds : Timespec → ℕ
nanoseconds t = t.tv_sec * 1000000000 + t.tv_nsec

carry_lem :
    (t : Timespec) → (nanoseconds (carry t) ≡ nanoseconds t) × ((carry t).tv_nsec < 1000000000)
carry_lem t = elim (Bool-cases (leb 1000000000 t.tv_nsec)) [
  | inl over ↦ ground (arith, over)
  | inr under ↦ ground (arith, under)
]

-- The deadline is `timeout_ms` milliseconds behind the reading, and is a time of the system: its
-- nanoseconds are less than a second, as `sem_timedwait` asks for.
pub wait_deadline_lem :
    (now : Timespec) (timeout_ms : ℕ)
    → (nanoseconds (wait_deadline now timeout_ms) ≡ nanoseconds now + timeout_ms * 1000000)
      × ((wait_deadline now timeout_ms).tv_nsec < 1000000000)
unfolding wait_deadline
wait_deadline_lem now timeout_ms =
    let (same, small) = carry_lem (record {
      tv_sec = now.tv_sec + timeout_ms / 1000;
      tv_nsec = now.tv_nsec + timeout_ms % 1000 * 1000000;
    }) in
    (omega (arith, same), small)
