-- ===== src/Sched/Clock/Slices.antt =====
-- How long a thread runs before it is asked to yield.
use free_bsd_messaround.Prelude.{
  ℕ, suc, ◌+◌, ◌*◌, ◌^◌, ◌≤◌, ◌<◌, ◌≡◌, ◌⊎◌, refl, ◌∙◌, inl, inr, Bool, true, false, Option, none,
  some, List, [], ◌∷◌, leb, if◌then◌else◌, Bool-cases, length, arith,
}
use free_bsd_messaround.Interact.{Settings, Usage, u_int, sched_interact_update}
use free_bsd_messaround.Interact.Windows.{SameWindow, interact-SameWindow, priority-SameWindow}
use free_bsd_messaround.Tdq.{Config, Tdq, tdq_slice, rotate}
use free_bsd_messaround.Tdq.Slice.{tdq_slice-bounds}
use free_bsd_messaround.Sched.Ticks.{tick_targ, since}
use free_bsd_messaround.Sched.Ticks.Window.{
  IsWindow, IsTimely, sched_pctcpu_update-IsWindow, sched_pctcpu_update-ltick,
}
use free_bsd_messaround.Sched.Clock.{Running, charge_tick, count_slice, after_update, sched_clock}

abbrev pub then_clocks : Option (Tdq × Running) → (Running → Option Running) → Option Running
then_clocks none next = none
then_clocks (some (tdq, td)) next = next td

window_if : (b : Bool) (x z : Usage) → SameWindow x z → SameWindow (if b then x else z) z
window_if true x z s = s
window_if false x z s = record { ticks = refl; last = refl; first = refl }

module _ (k : Settings) (c : Config) (tickincr : ℕ) where
  charge_tick-SameWindow : (z : Usage) → SameWindow (charge_tick k c tickincr z) z
  unfolding charge_tick
  charge_tick-SameWindow z =
      let z' = record z { runtime = u_int (z.runtime + tickincr) } in
      let a = interact-SameWindow k z' in
      let p = priority-SameWindow k (sched_interact_update k z') in
      window_if z.timeshare _ z
        (record { ticks = p.ticks ∙ a.ticks; last = p.last ∙ a.last; first = p.first ∙ a.first })

  SameWindow-IsWindow : (a b : Usage) → SameWindow a b → IsWindow k.hz b → IsWindow k.hz a
  SameWindow-IsWindow a b s w = record {
    last = rw s.last w.last;
    first = rw s.first w.first;
    short = rw s.last (rw s.first w.short);
    counted = rw s.last (rw s.first (rw s.ticks w.counted));
  }

  -- What a tick leaves: the window, and a longer slice or the request to yield.
  record Ticked (t : ℕ) (td td' : Running) : Type 0 where
    window : IsWindow k.hz td'.usage
    last : td'.usage.ltick ≡ t
    fifo : td'.fifo ≡ td.fifo
    idle : td'.idle ≡ td.idle
    asked :
        ((td'.needresched ≡ true) × (td'.sliceend ≡ true))
        ⊎ ((td'.slice ≡ td.slice + 1)
            × (td'.slice < c.sched_slice)
            × (td'.needresched ≡ td.needresched)
            × (td'.sliceend ≡ td.sliceend))

  count_slice-Ticked :
      (t : ℕ) (tdq : Tdq) (td : Running) (ts : Usage)
      → c.sched_slice_min * 6 ≤ c.sched_slice
      → td.idle ≡ false
      → IsWindow k.hz ts
      → ts.ltick ≡ t
      → Ticked t td (count_slice k c tickincr tdq (record td { usage = ts }))
  unfolding count_slice
  count_slice-Ticked t tdq td ts slices busy w last =
      elim (Bool-cases (leb (tdq_slice c tdq) (td.slice + 1))) [
        | inl e ↦ rw busy (
            rw e (record {
              window = w;
              last = last;
              fifo = refl;
              idle = refl;
              asked = inl (refl, refl);
            }))
        | inr e ↦
            let most = tdq_slice-bounds c tdq slices in
            rw busy (
              rw e (record {
                window = w;
                last = last;
                fifo = refl;
                idle = refl;
                asked = inr (refl, ground (arith, e, most.1), refl, refl);
              }))
      ]

  module _ (positive : 0 < k.hz) (small : k.hz < 2 ^ 20)
      (slices : c.sched_slice_min * 6 ≤ c.sched_slice) where
    sched_clock-Ticked :
        (t : ℕ) (tdq : Tdq) (td : Running)
        → td.idle ≡ false
        → td.fifo ≡ false
        → IsWindow k.hz td.usage
        → IsTimely k.hz t td.usage true
        → (tdq' : Tdq) × (td' : Running) × (sched_clock k c tickincr t tdq td ≡ some (tdq', td'))
          × Ticked t td td'
    unfolding sched_clock after_update
    sched_clock-Ticked t tdq td busy class w timely =
        let (ts, e, v) =
          sched_pctcpu_update-IsWindow k.hz positive small t td.usage true w timely in
        let s = charge_tick-SameWindow ts in
        let last = s.last ∙ sched_pctcpu_update-ltick k.hz t td.usage ts true e in
        (
          rotate c tdq,
          _,
          rw e (rw class refl),
          count_slice-Ticked t (rotate c tdq) td (charge_tick k c tickincr ts) slices busy
              (SameWindow-IsWindow _ ts s v) last,
        )

    -- The ticks come at times of which each is less than SCHED_TICK_TARG after the one before.
    unfoldable pub AreTimely : ℕ → List (ℕ × Tdq) → Type 0
    AreTimely last [] = Unit {0}
    AreTimely last ((t, tdq) ∷ ticks) =
        (t < 2 ^ 32) × (since t last < tick_targ k.hz) × AreTimely t ticks

    -- The thread after a number of ticks, each with the time and the queues that it meets.
    unfoldable pub clocks : List (ℕ × Tdq) → Running → Option Running
    clocks [] td = some td
    clocks ((t, tdq) ∷ ticks) td = then_clocks (sched_clock k c tickincr t tdq td) (clocks ticks)

    abbrev Asked : Running → Type 0
    Asked td = (td.needresched ≡ true) × (td.sliceend ≡ true)

    -- The thread has been asked to yield, or will be after n more ticks.
    abbrev AskedIn : ℕ → Running → Type 0
    AskedIn n td = Asked td ⊎ ((td.slice < c.sched_slice) × (c.sched_slice ≤ td.slice + n))

    asked_by : (n t : ℕ) (td td' : Running) → Ticked t td td' → AskedIn (suc n) td → AskedIn n td'
    asked_by n t td td' k' h = asked_from k'.asked h
      where
        asked_from :
            Asked td'
              ⊎ ((td'.slice ≡ td.slice + 1)
                  × (td'.slice < c.sched_slice)
                  × (td'.needresched ≡ td.needresched)
                  × (td'.sliceend ≡ td.sliceend))
            → AskedIn (suc n) td
            → AskedIn n td'
        asked_from (inl a) h = inl a
        asked_from (inr (e, l, r, f)) (inl (a, b)) = inl (r ∙ a, f ∙ b)
        asked_from (inr (e, l, r, f)) (inr (m, o)) = inr (l, omega (arith, e, o))

    AskedIn-Asked : (td : Running) → AskedIn 0 td → Asked td
    AskedIn-Asked td (inl a) = a
    AskedIn-Asked td (inr (l, m)) = absurd (omega (arith, l, m))

    clocks-Asked :
        (last : ℕ) (ticks : List (ℕ × Tdq)) (td : Running)
        → td.idle ≡ false
        → td.fifo ≡ false
        → IsWindow k.hz td.usage
        → td.usage.ltick ≡ last
        → AreTimely last ticks
        → AskedIn (length ticks) td
        → (td' : Running) × (clocks ticks td ≡ some td') × Asked td'
    unfolding clocks AreTimely
    clocks-Asked last [] td busy class w at timely h = (td, refl, AskedIn-Asked td h)
    clocks-Asked last ((t, tdq) ∷ ticks) td busy class w at timely h =
        let often : since t td.usage.ltick < tick_targ k.hz = rw at (timely.1) in
        let (tdq', td1, e, k1) =
          sched_clock-Ticked t tdq td busy class w
            (record { time = timely.0; later = omega (arith, often, small); often = λ _. often }) in
        let (td2, f, g) =
          clocks-Asked t ticks td1 (k1.idle ∙ busy) (k1.fifo ∙ class) k1.window k1.last timely.2
            (asked_by (length ticks) t td td1 k1 h) in
        (td2, rw e f, g)

    -- A thread that runs, and is neither the idle thread nor of a FIFO class, is asked to yield
    -- within sched_slice ticks of the clock, whatever the load, if each tick comes less than
    -- SCHED_TICK_TARG after the one before.
    pub clocks-yields :
        (ticks : List (ℕ × Tdq)) (td : Running)
        → td.idle ≡ false
        → td.fifo ≡ false
        → IsWindow k.hz td.usage
        → AreTimely td.usage.ltick ticks
        → td.slice < c.sched_slice
        → c.sched_slice ≤ length ticks
        → (td' : Running) × (clocks ticks td ≡ some td')
          × (td'.needresched ≡ true)
          × (td'.sliceend ≡ true)
    clocks-yields ticks td busy class w timely l enough =
        let (td', e, a) =
          clocks-Asked td.usage.ltick ticks td busy class w refl timely
            (inr (l, omega (arith, enough))) in
        (td', e, a.0, a.1)
