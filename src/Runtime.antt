-- ===== src/Runtime.antt =====
-- src/runtime.c: the busy and standby counts that keep an idle launchd alive, and its idle timer.
-- `emit` records a call into the kernel.
pub mod Counts
use launchd.Base.{ℕ, Bool, not, ◌&&◌, ◌∷◌, ltb, ◌==◌, if◌then◌else◌}
use launchd.Job.Types.{
  Effect, transaction_begin, transaction_end, standby_begin, standby_end, idle_timer_add,
  idle_timer_delete, Sys,
}
use launchd.Job.Status.{inc64, dec64}

abbrev pub emit : Effect → Sys → Sys
emit e s = record s { trace = e ∷ s.trace }

abbrev pub emit_when : Bool → Effect → Sys → Sys
emit_when b e s = if b then emit e s else s

unfoldable pub runtime_install_timer : Sys → Sys
runtime_install_timer s =
    if not s.pid1_magic && s.runtime_busy_cnt == 0 then emit idle_timer_add s else s

unfoldable pub runtime_remove_timer : Sys → Sys
runtime_remove_timer s =
    if not s.pid1_magic && ltb 0 s.runtime_busy_cnt then emit idle_timer_delete s else s

unfoldable pub runtime_add_ref : Sys → Sys
unfolding runtime_remove_timer
runtime_add_ref s =
    let begun = if not s.pid1_magic then emit transaction_begin s else s in
    runtime_remove_timer (record begun { runtime_busy_cnt = inc64 begun.runtime_busy_cnt })

unfoldable pub runtime_del_ref : Sys → Sys
unfolding runtime_install_timer
runtime_del_ref s =
    let ended = if not s.pid1_magic then emit transaction_end s else s in
    runtime_install_timer (record ended { runtime_busy_cnt = dec64 ended.runtime_busy_cnt })

unfoldable pub runtime_add_weak_ref : Sys → Sys
runtime_add_weak_ref s =
    let begun = if not s.pid1_magic then emit standby_begin s else s in
    record begun { runtime_standby_cnt = inc64 begun.runtime_standby_cnt }

unfoldable pub runtime_del_weak_ref : Sys → Sys
runtime_del_weak_ref s =
    let ended = if not s.pid1_magic then emit standby_end s else s in
    record ended { runtime_standby_cnt = dec64 ended.runtime_standby_cnt }
