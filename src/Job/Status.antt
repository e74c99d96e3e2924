-- ===== src/Job/Status.antt =====
-- The constants and macros of the C headers that core.c uses (sys/wait.h, sys/signal.h,
-- sys/errno.h), its counters of fixed width, and the clock of src/runtime.c.
use launchd.Base.{ℕ, ◌+◌, ◌-◌, ◌/◌, ◌%◌, Bool, not, ◌&&◌, ◌==◌}

-- A wait(2) status is the bit pattern of an int.
unfoldable pub wtermsig : ℕ → ℕ
wtermsig status = status % 128

unfoldable pub wifexited : ℕ → Bool
wifexited status = status % 128 == 0

unfoldable pub wifsignaled : ℕ → Bool
wifsignaled status = not (status % 128 == 127) && not (status % 128 == 0)

unfoldable pub wexitstatus : ℕ → ℕ
wexitstatus status = status / 256 % 256

-- W_EXITCODE(-1, SIGSEGV), as a 32-bit pattern.
abbrev pub assumed_crash : ℕ
assumed_crash = 0xffffff0b

abbrev pub sigill : ℕ
sigill = 4

abbrev pub sigtrap : ℕ
sigtrap = 5

abbrev pub sigabrt : ℕ
sigabrt = 6

abbrev pub sigfpe : ℕ
sigfpe = 8

abbrev pub sigkill : ℕ
sigkill = 9

abbrev pub sigbus : ℕ
sigbus = 10

abbrev pub sigsegv : ℕ
sigsegv = 11

abbrev pub sigsys : ℕ
sigsys = 12

abbrev pub sigterm : ℕ
sigterm = 15

abbrev pub enoent : ℕ
enoent = 2

abbrev pub esrch : ℕ
esrch = 3

abbrev pub enotdir : ℕ
enotdir = 20

abbrev pub ebadarch : ℕ
ebadarch = 86

-- LAUNCHD_SIGKILL_TIMER
abbrev pub sigkill_timer : ℕ
sigkill_timer = 4

-- PROC_DIRTY_ALLOWS_IDLE_EXIT and PROC_DIRTY_IS_DIRTY, bits 1 and 2 of the flags.
unfoldable pub allows_idle_exit : ℕ → Bool
allows_idle_exit flags = flags / 2 % 2 == 1

unfoldable pub is_dirty : ℕ → Bool
is_dirty flags = flags / 4 % 2 == 1

abbrev pub inc32 : ℕ → ℕ
inc32 n = (n + 1) % 4294967296

abbrev pub dec32 : ℕ → ℕ
dec32 n = (n + 4294967295) % 4294967296

abbrev pub inc64 : ℕ → ℕ
inc64 n = (n + 1) % 18446744073709551616

abbrev pub dec64 : ℕ → ℕ
dec64 n = (n + 18446744073709551615) % 18446744073709551616

-- runtime_get_nanoseconds_since: the time of the event in hand, less `o`, in 64 bits. The time base
-- of the machine is 1/1.
unfoldable pub nanoseconds_since : ℕ → ℕ → ℕ
nanoseconds_since time_of_event o =
    (time_of_event + (18446744073709551616 - o)) % 18446744073709551616

abbrev pub nsec_per_sec : ℕ
nsec_per_sec = 1000000000
