-- ===== src/Sched/Life/Forks.antt =====
-- What a fork leaves to the parent and to the child.
use free_bsd_messaround.Prelude.{
  ℕ, ◌+◌, ◌*◌, ◌^◌, ◌≤◌, ◌<◌, ◌≡◌, refl, ap, Bool, true, false, Option, none, some, arith,
}
use free_bsd_messaround.Interact.{
  Settings, Usage, u_int, sched_interact_update, sched_interact_fork, slp_run_max, slp_run_fork,
}
use free_bsd_messaround.Interact.Decay.{sched_interact_update-bound, sched_interact_fork-bound}
use free_bsd_messaround.Interact.Windows.{
  SameWindow, interact-SameWindow, fork-SameWindow, priority-SameWindow, priority-history,
}
use free_bsd_messaround.Tdq.{Config, Tdq}
use free_bsd_messaround.Sched.Ticks.{slide, charge, too_long, sched_pctcpu_update}
use free_bsd_messaround.Sched.Ticks.Window.{IsWindow, IsTimely, sched_pctcpu_update-IsWindow}
use free_bsd_messaround.Sched.Life.{
  Child, inherit, then_fork, sched_fork_thread, penalize_child, penalize, sched_fork,
}

-- What a fork leaves: windows within their bounds, a child that starts with little history at its own
-- priority, and a parent whose history is cut.
pub record IsForked (k : Settings) (parent : Usage) (child : Child) : Type 0 where
  pub kept : IsWindow k.hz parent
  pub window : IsWindow k.hz child.usage
  pub history : child.usage.runtime + child.usage.slptime < slp_run_fork k * 2
  pub own : child.priority ≡ child.base_pri
  pub free : (child.bound ≡ false) × (child.xferable ≡ false)
  pub cut : parent.runtime + parent.slptime ≤ slp_run_max k + 1

-- The histories of two threads are the same.
record SameHistory (a b : Usage) : Type 0 where
  runtime : a.runtime ≡ b.runtime
  slptime : a.slptime ≡ b.slptime

slide-history : (hz t : ℕ) (ts ts' : Usage) → slide hz t ts ≡ some ts' → SameHistory ts' ts
unfolding slide too_long
slide-history hz t ts ts' e = record { runtime = ground (arith, e); slptime = ground (arith, e) }

charge-history :
    (t : ℕ) (run : Bool) (o : Option Usage) (ts ts' : Usage)
    → ((ts1 : Usage) → o ≡ some ts1 → SameHistory ts1 ts)
    → charge t run o ≡ some ts'
    → SameHistory ts' ts
charge-history t run none ts ts' h e = absurd (cc)
charge-history t run (some ts1) ts ts' h e =
    let s = h ts1 refl in
    record { runtime = ground (arith, e, s.runtime); slptime = ground (arith, e, s.slptime) }

-- The update of the window leaves the history as it is.
sched_pctcpu_update-history :
    (hz t : ℕ) (ts ts' : Usage) (run : Bool)
    → sched_pctcpu_update hz t ts run ≡ some ts'
    → SameHistory ts' ts
unfolding sched_pctcpu_update
sched_pctcpu_update-history hz t ts ts' run e =
    charge-history t run (slide hz t ts) ts ts' (slide-history hz t ts) e

same-IsWindow : (hz : ℕ) (a b : Usage) → SameWindow a b → IsWindow hz b → IsWindow hz a
same-IsWindow hz a b s w = record {
  last = rw s.last w.last;
  first = rw s.first w.first;
  short = rw (s.last, s.first) w.short;
  counted = rw (s.ticks, s.last, s.first) w.counted;
}

module _ (k : Settings) (c : Config) (tickincr : ℕ) where
  penalize-IsWindow :
      (n : ℕ) (td : Usage) → IsWindow k.hz td → IsWindow k.hz (penalize k c tickincr n td)
  unfolding penalize
  penalize-IsWindow n td w = same-IsWindow k.hz _ _ (priority-SameWindow k _) (
      same-IsWindow k.hz _ _ (interact-SameWindow k _)
        (record { last = w.last; first = w.first; short = w.short; counted = w.counted }))

  penalize-cut :
      (n : ℕ) (td : Usage)
      → u_int (td.runtime + n) + td.slptime < 2 ^ 32
      → let td' = penalize k c tickincr n td in td'.runtime + td'.slptime ≤ slp_run_max k + 1
  unfolding penalize
  penalize-cut n td l =
      let td1 = record td { runtime = u_int (td.runtime + n) } in
      let (r, s) = priority-history k (sched_interact_update k td1) in
      let b = sched_interact_update-bound k td1 l in ground (arith, r, s, b)

  child-history :
      (child : Child)
      → 2 ≤ k.hz
      → child.usage.runtime + child.usage.slptime < 2 ^ 31
      → let child' = penalize_child k c tickincr child in
        child'.usage.runtime + child'.usage.slptime < slp_run_fork k * 2
  unfolding penalize_child
  child-history child p l =
      let (r, s) = priority-history k (sched_interact_fork k child.usage) in
      let b = sched_interact_fork-bound k child.usage p l in omega (arith, r, s, b)

  child-IsWindow :
      (child : Child)
      → IsWindow k.hz child.usage
      → IsWindow k.hz (penalize_child k c tickincr child).usage
  unfolding penalize_child
  child-IsWindow child w =
      same-IsWindow k.hz _ _ (priority-SameWindow k _)
        (same-IsWindow k.hz _ _ (fork-SameWindow k _) w)

  module _ (positive : 2 ≤ k.hz) (small : k.hz < 2 ^ 17) where
    forked :
        (tdq : Tdq) (td : Usage) (ts_cpu : ℕ) (child : Child)
        → IsWindow k.hz td
        → td.runtime + tickincr + td.slptime < 2 ^ 31
        → IsForked k
            (penalize k c tickincr tickincr td)
            (penalize_child k c tickincr (sched_fork_thread c tdq td ts_cpu child))
    unfolding sched_fork_thread inherit penalize_child
    forked tdq td ts_cpu child w l =
        let started = sched_fork_thread c tdq td ts_cpu child in
        record {
          kept = penalize-IsWindow tickincr td w;
          window =
              child-IsWindow started
                (record { last = w.last; first = w.first; short = w.short; counted = w.counted });
          history = child-history started positive (omega (arith, l));
          own = refl;
          free = (refl, refl);
          cut = penalize-cut tickincr td (omega (arith, l));
        }

    -- For hz from 2 to below 2^17, a fork by a running thread whose window is within its bounds
    -- and updated in time, and whose history with the charged tick fits an int, returns: the
    -- windows of parent and child are within their bounds, the child has a history shorter than
    -- twice SCHED_SLP_RUN_FORK, its own priority and is neither bound nor transferable, and the
    -- history of the parent is at most one more than SCHED_SLP_RUN_MAX.
    pub sched_fork-IsForked :
        (t : ℕ) (tdq : Tdq) (td : Usage) (ts_cpu : ℕ) (child : Child)
        → IsWindow k.hz td
        → IsTimely k.hz t td true
        → td.runtime + tickincr + td.slptime < 2 ^ 31
        → (parent : Usage) × (child' : Child) × (sched_fork k c tickincr t tdq td ts_cpu child
            ≡ some (parent, child'))
          × IsForked k parent child'
    unfolding sched_fork
    sched_fork-IsForked t tdq td ts_cpu child w timely l =
        let (td1, e, w1) =
          sched_pctcpu_update-IsWindow k.hz (omega (arith, positive)) (omega (arith, small)) t td
            true w timely in
        let s = sched_pctcpu_update-history k.hz t td td1 true e in
        (
          _,
          _,
          ap (then_fork k c tickincr tdq ts_cpu child) e,
          forked tdq td1 ts_cpu child w1 (omega (arith, s.runtime, s.slptime, l)),
        )
