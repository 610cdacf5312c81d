-- ===== src/Sched/Ticks.antt =====
-- sched_pctcpu_update and sched_pctcpu of asgn2/kern/sched_ule.c: the window of ticks in which a thread
-- ran. ticks, ts_ltick and ts_ftick are the 32 bits of an int that goes round.
pub mod Window
use free_bsd_messaround.Prelude.{
  ℕ, ◌+◌, ◌-◌, ◌*◌, ◌/◌, ◌%◌, ◌^◌, min, Bool, true, false, ◌&&◌, Option, none, some, ltb, leb, ◌==◌,
  if◌then◌else◌,
}
use free_bsd_messaround.Interact.{Usage, u_int}

abbrev pub sched_tick_secs : ℕ
sched_tick_secs = 10

-- SCHED_TICK_TARG and SCHED_TICK_MAX.
abbrev pub tick_targ : ℕ → ℕ
tick_targ hz = hz * sched_tick_secs

abbrev pub tick_max : ℕ → ℕ
tick_max hz = tick_targ hz + hz

-- The difference of two times.
abbrev pub since : ℕ → ℕ → ℕ
since t from = u_int (t + 2 ^ 32 - from)

-- t - ts_ftick >= SCHED_TICK_MAX, for an int.
unfoldable pub too_long : ℕ → ℕ → ℕ → Bool
too_long hz t ftick = ltb (since t ftick) (2 ^ 31) && leb (tick_max hz) (since t ftick)

-- The window, brought up to the time t; `none` is a division by zero.
unfoldable pub slide : ℕ → ℕ → Usage → Option Usage
slide hz t ts =
    if leb (tick_targ hz) (since t ts.ltick)
    then some (record ts { ticks = 0; ftick = since t (tick_targ hz) })
    else if too_long hz t ts.ftick
    then (if since ts.ltick ts.ftick == 0
        then none
        else some (record ts {
          ticks = ts.ticks / since ts.ltick ts.ftick * since ts.ltick (since t (tick_targ hz));
          ftick = since t (tick_targ hz);
        }))
    else some ts

abbrev pub charge : ℕ → Bool → Option Usage → Option Usage
charge t run none = none
charge t run (some ts) = some (record ts {
  ticks = if run then ts.ticks + since t ts.ltick * 2 ^ 10 else ts.ticks;
  ltick = t;
})

unfoldable pub sched_pctcpu_update : ℕ → ℕ → Usage → Bool → Option Usage
sched_pctcpu_update hz t ts run = charge t run (slide hz t ts)

-- FSCALE, and its shift.
abbrev pub fscale : ℕ
fscale = 2 ^ 11

abbrev pub pctcpu_of : ℕ → Usage → ℕ
pctcpu_of hz ts =
    if ts.ticks == 0
    then 0
    else fscale * (fscale * min (ts.ticks / 2 ^ 10 / sched_tick_secs) hz / hz) / 2 ^ 11

abbrev pub fetch : ℕ → Option Usage → Option (Usage × ℕ)
fetch hz none = none
fetch hz (some ts) = some (ts, pctcpu_of hz ts)

-- The share of the processor, of FSCALE.
unfoldable pub sched_pctcpu : ℕ → ℕ → Usage → Bool → Option (Usage × ℕ)
sched_pctcpu hz t ts running = fetch hz (sched_pctcpu_update hz t ts running)
