-- ===== src/Interact/Tests.antt =====
-- The scheduler with the timeshare priorities of FreeBSD and 1000 ticks a second.
use free_bsd_messaround.Prelude.{ℕ, ◌≤◌, ◌≡◌, ltb, if◌then◌else◌, refl, true, pos, negsuc, arith}
use free_bsd_messaround.Interact.{Settings, Usage, max_interact, min_batch, score_of, new_priority}
use free_bsd_messaround.Interact.Priority.{IsSound, new_priority-range}

abbrev pub settings : Settings
settings = record {
  hz = 1000;
  sched_interact = 30;
  min_timeshare = 120;
  max_timeshare = 223;
  pri_nresv = 40;
}

-- A thread that ran for 7 seconds and slept for 2, with nice value -5.
abbrev pub usage : Usage
usage = record {
  runtime = 7168000;
  slptime = 2048000;
  ticks = 4096000;
  ltick = 9000;
  ftick = 0;
  nice = negsuc 4;
  timeshare = true;
  base_user_pri = 150;
  lend_user_pri = 255;
  user_pri = 150;
}

settings-IsSound : IsSound settings
settings-IsSound = record {
  fits = omega arith;
  even = refl;
  room = omega arith;
  threshold = omega arith;
}

new_priority-range_example :
    (p : ℕ) × (new_priority settings usage ≡ pos p)
    × (if ltb (score_of settings usage) 30
        then (120 ≤ p) × (p ≤ max_interact settings)
        else (min_batch settings ≤ p) × (p ≤ 223))
new_priority-range_example =
    new_priority-range settings usage settings-IsSound (omega arith, omega arith)
