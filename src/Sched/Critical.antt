-- ===== src/Sched/Critical.antt =====
-- critical_enter and critical_exit of asgn2/kern/kern_switch.c and sched_preempt of
-- asgn2/kern/sched_ule.c: a thread is not switched away inside a critical section, and a request to
-- do so waits for its end.
pub mod Requests
use free_bsd_messaround.Prelude.{
  ℕ, suc, ◌+◌, ◌-◌, Bool, true, false, ◌&&◌, not, Option, none, some, List, ◌∷◌, ltb, ◌==◌,
  if◌then◌else◌, ◌≡◌,
}

-- td_critnest and td_owepreempt of the thread, tdq_ipipending of its processor, and the values of
-- td_critnest at the calls of mi_switch, the last first. The lock of a thread, which adds a level
-- while it is held, is not counted.
pub record Critical : Type 0 where
  pub critnest : ℕ
  pub owepreempt : Bool
  pub ipipending : Bool
  pub switches : List ℕ

-- mi_switch of the kernel, of which is used that the thread comes back as it went, but that
-- sched_switch has cleared td_owepreempt.
pub record Switcher : Type 0 where
  pub mi_switch : Critical → Critical
  pub clears : (td : Critical) → (mi_switch td).owepreempt ≡ false
  pub nests : (td : Critical) → (mi_switch td).critnest ≡ td.critnest
  pub notes : (td : Critical) → (mi_switch td).switches ≡ td.switches

-- The call, which is noted.
unfoldable pub switch_away : Switcher → Critical → Critical
switch_away m td = m.mi_switch (record td { switches = td.critnest ∷ td.switches })

unfoldable pub critical_enter : Critical → Critical
critical_enter td = record td { critnest = td.critnest + 1 }

-- `none` is the failed assertion.
unfoldable pub critical_exit : Switcher → Bool → Critical → Option Critical
critical_exit m kdb_active td =
    if td.critnest == 0
    then none
    else if td.critnest == 1
    then (let td' = record td { critnest = 0 } in
        if td.owepreempt && not kdb_active then some (switch_away m td') else some td')
    else some (record td { critnest = td.critnest - 1 })

-- `urgent` is td_priority > tdq_lowpri; the test of td_critnest counts the lock of the thread.
unfoldable pub sched_preempt : Switcher → Bool → Critical → Critical
sched_preempt m urgent td =
    let td' = record td { ipipending = false } in
    if not urgent
    then td'
    else if ltb 1 (td.critnest + 1)
    then record td' { owepreempt = true }
    else switch_away m td'
