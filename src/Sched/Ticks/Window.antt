-- ===== src/Sched/Ticks/Window.antt =====
-- The window of a thread stays within SCHED_TICK_MAX, and its ticks within the window.
use free_bsd_messaround.Prelude.{
  ℕ, ◌+◌, ◌*◌, ◌/◌, ◌^◌, ◌≤◌, ◌<◌, ◌≡◌, refl, ap, inl, inr, min, Bool, true, false, Option, none,
  some, leb, ◌==◌, if◌then◌else◌, mul_mono, Bool-cases, arith,
}
use native.Mathlib.Nat.{div-le_of_le-mul}
use free_bsd_messaround.Interact.{Usage}
use free_bsd_messaround.Sched.Ticks.{
  tick_targ, tick_max, since, too_long, slide, charge, sched_pctcpu_update, pctcpu_of, fetch,
  sched_pctcpu, fscale,
}

-- The times are those of an int, the window is shorter than SCHED_TICK_MAX, and no more ticks are
-- counted than it has.
pub record IsWindow (hz : ℕ) (ts : Usage) : Type 0 where
  pub last : ts.ltick < 2 ^ 32
  pub first : ts.ftick < 2 ^ 32
  pub short : since ts.ltick ts.ftick < tick_max hz
  pub counted : ts.ticks ≤ since ts.ltick ts.ftick * 2 ^ 10

-- An update at time t: the clock has moved by less than half of its range, and a thread that runs
-- is updated at least every SCHED_TICK_TARG ticks.
pub record IsTimely (hz t : ℕ) (ts : Usage) (run : Bool) : Type 0 where
  pub time : t < 2 ^ 32
  pub later : since t ts.ltick < 2 ^ 30
  pub often : run ≡ true → since t ts.ltick < tick_targ hz

charge-ltick :
    (t : ℕ) (run : Bool) (o : Option Usage) (ts' : Usage)
    → charge t run o ≡ some ts'
    → ts'.ltick ≡ t
charge-ltick t run none ts' e = absurd (cc)
charge-ltick t run (some ts) ts' e = ground (arith, e)

-- The update is made at time t.
pub sched_pctcpu_update-ltick :
    (hz t : ℕ) (ts ts' : Usage) (run : Bool)
    → sched_pctcpu_update hz t ts run ≡ some ts'
    → ts'.ltick ≡ t
unfolding sched_pctcpu_update
sched_pctcpu_update-ltick hz t ts ts' run e = charge-ltick t run (slide hz t ts) ts' e

module _ (hz : ℕ) (positive : 0 < hz) (small : hz < 2 ^ 20) where
  scaled : (ticks w k : ℕ) → ticks ≤ w * 2 ^ 10 → ticks / w * k ≤ k * 2 ^ 10
  scaled ticks w k l = omega (arith, mul_mono _ _ k (div-le_of_le-mul w l))

  not_zero : (n : ℕ) → 0 < n → (n == 0) ≡ false
  not_zero n p = ground arith

  later_ticks :
      (run : Bool) (n d d' : ℕ) {most : ℕ}
      → d' ≡ d
      → n + (if run then d * 2 ^ 10 else 0) ≤ most
      → (if run then n + d' * 2 ^ 10 else n) ≤ most
  later_ticks true n d d' e l = omega (arith, e, l)
  later_ticks false n d d' e l = omega (arith, l)

  -- The window after the first half of the update, when the time since ts_ltick is still to be
  -- counted.
  record Slid (t : ℕ) (run : Bool) (ts ts1 : Usage) : Type 0 where
    last : ts1.ltick ≡ ts.ltick
    first : ts1.ftick < 2 ^ 32
    short : since t ts1.ftick < tick_max hz
    counted :
        ts1.ticks + (if run then since t ts.ltick * 2 ^ 10 else 0) ≤ since t ts1.ftick * 2 ^ 10

  module _ (t : ℕ) (ts : Usage) (run : Bool) (w : IsWindow hz ts) (c : IsTimely hz t ts run) where
    since_targ : since t (since t (tick_targ hz)) ≡ tick_targ hz
    since_targ = omega (arith, c.time, small)

    since_both :
        since t ts.ltick < tick_targ hz
        → since ts.ltick (since t (tick_targ hz)) + since t ts.ltick ≡ tick_targ hz
    since_both l = omega (arith, c.time, w.last, small, l)

    since_first : since t ts.ftick ≡ since ts.ltick ts.ftick + since t ts.ltick
    since_first = omega (arith, c.time, w.last, w.first, w.short, c.later, small)

    reset-Slid :
        tick_targ hz ≤ since t ts.ltick
        → Slid t run ts (record ts { ticks = 0; ftick = since t (tick_targ hz) })
    reset-Slid l = record {
      last = refl;
      first = omega arith;
      short = omega (arith, since_targ, positive);
      counted = ground (arith, since_targ, c.often, l);
    }

    rescaled-Slid :
        since t ts.ltick < tick_targ hz
        → Slid t run ts (record ts {
          ticks = ts.ticks / since ts.ltick ts.ftick * since ts.ltick (since t (tick_targ hz));
          ftick = since t (tick_targ hz);
        })
    rescaled-Slid l = record {
      last = refl;
      first = omega arith;
      short = omega (arith, since_targ, positive);
      counted =
          let most =
            scaled ts.ticks (since ts.ltick ts.ftick) (since ts.ltick (since t (tick_targ hz)))
              w.counted in
          ground (arith, since_targ, since_both l, most);
    }

    kept-Slid : since t ts.ftick < tick_max hz → Slid t run ts ts
    kept-Slid l = record {
      last = refl;
      first = w.first;
      short = l;
      counted = ground (arith, since_first, w.counted);
    }

    wide :
        too_long hz t ts.ftick ≡ true
        → leb (tick_targ hz) (since t ts.ltick) ≡ false
        → 0 < since ts.ltick ts.ftick
    unfolding too_long
    wide f e = ground (arith, since_first, f, e, positive)

    shorter : too_long hz t ts.ftick ≡ false → since t ts.ftick < tick_max hz
    unfolding too_long
    shorter f = ground (arith, since_first, f, w.short, c.later, small)

    slide-Slid : (ts1 : Usage) × (slide hz t ts ≡ some ts1) × Slid t run ts ts1
    unfolding slide too_long
    slide-Slid = elim (Bool-cases (leb (tick_targ hz) (since t ts.ltick))) [
      | inl e ↦ (_, rw e refl, reset-Slid (ground (arith, e)))
      | inr e ↦ elim (Bool-cases (too_long hz t ts.ftick)) [
        | inl f ↦
            (_, rw e (rw f (rw (not_zero _ (wide f e)) refl)), rescaled-Slid (ground (arith, e)))
        | inr f ↦ (_, rw e (rw f refl), kept-Slid (shorter f))
      ]
    ]

    charged :
        (ts1 : Usage)
        → Slid t run ts ts1
        → (ts2 : Usage) × (charge t run (some ts1) ≡ some ts2) × IsWindow hz ts2
    charged ts1 s = (
      _,
      refl,
      record {
        last = c.time;
        first = s.first;
        short = s.short;
        counted = later_ticks run ts1.ticks _ _ (ap (since t) s.last) s.counted;
      },
    )

    -- For hz below 2^20 the update of a window within its bounds returns, and keeps it within them.
    pub sched_pctcpu_update-IsWindow :
        (ts' : Usage) × (sched_pctcpu_update hz t ts run ≡ some ts') × IsWindow hz ts'
    unfolding sched_pctcpu_update
    sched_pctcpu_update-IsWindow =
        let (ts1, e, s) = slide-Slid in let (ts2, f, v) = charged ts1 s in (ts2, rw e f, v)

    -- For hz above 0 and below 2^17, a window within its bounds, and a clock that has moved by less than 2^30
    -- ticks since the last update, and by less than SCHED_TICK_TARG if the thread runs, an update
    -- returns, without dividing by zero, and leaves a window shorter than SCHED_TICK_MAX with no more
    -- ticks counted than it has, which an int holds.
    pub sched_pctcpu_update-fits :
        hz < 2 ^ 17
        → (ts' : Usage) × (sched_pctcpu_update hz t ts run ≡ some ts')
          × IsWindow hz ts'
          × (ts'.ticks < 2 ^ 31)
    sched_pctcpu_update-fits narrow =
        let (ts1, e, v) = sched_pctcpu_update-IsWindow in
        let s = v.short in let c = v.counted in (ts1, e, v, omega (arith, s, c, narrow))

    pctcpu_of-le : (ts1 : Usage) → pctcpu_of hz ts1 ≤ fscale
    pctcpu_of-le ts1 =
        let r = min (ts1.ticks / 2 ^ 10 / 10) hz in
        let within : r ≤ hz = ground arith in
        let share : fscale * r / hz ≤ fscale = div-le_of_le-mul hz (omega (arith, within)) in
        ground (arith, share)

    -- sched_pctcpu returns a share of at most FSCALE, with such a window.
    pub sched_pctcpu-bound :
        (ts' : Usage) × (share : ℕ) × (sched_pctcpu hz t ts run ≡ some (ts', share))
        × IsWindow hz ts'
        × (share ≤ fscale)
    unfolding sched_pctcpu
    sched_pctcpu-bound =
        let (ts1, e, v) = sched_pctcpu_update-IsWindow in
        (ts1, pctcpu_of hz ts1, ap (fetch hz) e, v, pctcpu_of-le ts1)
