-- ===== src/Clock.antt =====
-- src/common/can4vscpobj.cpp: `semaphoreTimedWait` on Linux, and the two clocks. The readings of the
-- system's clocks and the outcome of `sem_timedwait` are arguments.
pub mod Laws
use vscpl1drv_can4vscp.Prelude.{ℕ, ◌+◌, ◌*◌, ◌/◌, ◌%◌, ◌^◌, leb, if◌then◌else◌}
use vscpl1drv_can4vscp.Queues.{Wait, got_token, timed_out, failed_wait}

-- struct timespec
pub record Timespec : Type 0 where
  pub tv_sec : ℕ
  pub tv_nsec : ℕ

-- The seconds in the nanoseconds are carried over.
abbrev pub carry : Timespec → Timespec
carry t =
    if leb 1000000000 t.tv_nsec
    then record { tv_sec = t.tv_sec + t.tv_nsec / 1000000000; tv_nsec = t.tv_nsec % 1000000000 }
    else t

unfoldable pub wait_deadline : Timespec → ℕ → Timespec
wait_deadline now timeout_ms = carry (record {
  tv_sec = now.tv_sec + timeout_ms / 1000;
  tv_nsec = now.tv_nsec + timeout_ms % 1000 * 1000000;
})

-- sem_timedwait: the token, or -1 with an errno.
pub data SemOutcome : Type 0 where
  taken etimedout eagain other_errno : SemOutcome

-- The result, with the errno that the callers look at: EAGAIN at the deadline.
abbrev pub outcome : SemOutcome → Wait
outcome taken = got_token
outcome etimedout = timed_out
outcome eagain = timed_out
outcome other_errno = failed_wait

unfoldable pub semaphore_timed_wait : (Timespec → SemOutcome) → Timespec → ℕ → Wait
semaphore_timed_wait sem_timedwait now timeout_ms =
    outcome (sem_timedwait (wait_deadline now timeout_ms))

-- Of the seconds and microseconds of `gettimeofday`.
unfoldable pub get_clock_milli_seconds : ℕ → ℕ → ℕ
get_clock_milli_seconds sec usec = (1000 * sec + usec / 1000) % 2 ^ 32

unfoldable pub get_clock_micro_seconds : ℕ → ℕ → ℕ
get_clock_micro_seconds sec usec = (1000000 * sec + usec) % 2 ^ 32
