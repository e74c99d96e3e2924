-- ===== src/Runtime/Counts.antt =====
-- src/runtime.c: the count of references.
use launchd.Base.{◌<◌, ◌≡◌, arith}
use launchd.Job.Types.{Sys}
use launchd.Runtime.{runtime_add_ref, runtime_del_ref}

-- Taking a reference and dropping it leaves the count as it was, for every count of 64 bits.
pub del_ref-add_ref :
    (s : Sys)
    → s.runtime_busy_cnt < 18446744073709551616
    → (runtime_del_ref (runtime_add_ref s)).runtime_busy_cnt ≡ s.runtime_busy_cnt
unfolding runtime_del_ref runtime_add_ref
del_ref-add_ref s h = ground arith
