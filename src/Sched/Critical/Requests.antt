-- ===== src/Sched/Critical/Requests.antt =====
-- A request to preempt waits only inside a critical section.
use free_bsd_messaround.Prelude.{
  ℕ, zero, suc, ◌+◌, ◌-◌, ◌≡◌, refl, Bool, true, false, Option, none, some, List, [], ◌∷◌, arith,
  ltb, Bool-cases, inl, inr, ◌∙◌, sym, subst,
}
use free_bsd_messaround.Sched.Critical.{
  Critical, Switcher, switch_away, critical_enter, critical_exit, sched_preempt,
}

-- A section is entered or left, while the kernel debugger is not active, or a request comes in.
pub data Event : Type 0 where
  enter leave : Event
  preempt : Bool → Event

unfoldable pub event : Switcher → Event → Critical → Option Critical
event m enter td = some (critical_enter td)
event m leave td = critical_exit m false td
event m (preempt urgent) td = some (sched_preempt m urgent td)

abbrev pub then_events : Option Critical → (Critical → Option Critical) → Option Critical
then_events none next = none
then_events (some td) next = next td

unfoldable pub events : Switcher → List Event → Critical → Option Critical
events m [] td = some td
events m (e ∷ es) td = then_events (event m e td) (events m es)

-- The depth of the sections after the events, or none if one is left that was not entered.
unfoldable pub depth : List Event → ℕ → Option ℕ
depth [] n = some n
depth (enter ∷ es) n = depth es (n + 1)
depth (leave ∷ es) zero = none
depth (leave ∷ es) (suc n) = depth es n
depth (preempt urgent ∷ es) n = depth es n

abbrev pub AllZero : List ℕ → Type 0
AllZero [] = Unit {0}
AllZero (n ∷ ns) = (n ≡ 0) × AllZero ns

-- No request waits outside the sections, and every switch was made outside of them.
pub record IsKept (td : Critical) : Type 0 where
  pub answered : td.critnest ≡ 0 → td.owepreempt ≡ false
  pub outside : AllZero td.switches

enter-IsKept : (td : Critical) → IsKept td → IsKept (critical_enter td)
unfolding critical_enter
enter-IsKept td k = record { answered = λ e. absurd (omega (arith, e)); outside = k.outside }

-- The switch is made outside the sections, and answers the request.
switch-IsKept :
    (m : Switcher) (td : Critical)
    → td.critnest ≡ 0
    → AllZero td.switches
    → IsKept (switch_away m td) × ((switch_away m td).critnest ≡ 0)
unfolding switch_away
switch-IsKept m td e out =
    let noted = record td { switches = td.critnest ∷ td.switches } in
    (
      record {
        answered = λ z. m.clears noted;
        outside = subst AllZero (sym (m.notes noted)) (e, out);
      },
      m.nests noted ∙ e,
    )

preempt-IsKept :
    (m : Switcher) (urgent : Bool) (td : Critical)
    → IsKept td
    → IsKept (sched_preempt m urgent td) × ((sched_preempt m urgent td).critnest ≡ td.critnest)
unfolding sched_preempt
preempt-IsKept m false td k = (record { answered = k.answered; outside = k.outside }, refl)
preempt-IsKept m true td k = elim (Bool-cases (ltb 1 (td.critnest + 1))) [
  | inl e ↦
      rw e (record { answered = λ z. absurd (ground (arith, e, z)); outside = k.outside }, refl)
  | inr e ↦
      let at : td.critnest ≡ 0 = ground (arith, e) in
      let (kept, same) = switch-IsKept m (record td { ipipending = false }) at k.outside in
      rw e (kept, same ∙ sym at)
]

deeper : (td : Critical) (m : ℕ) → td.critnest ≡ m → (critical_enter td).critnest ≡ m + 1
unfolding critical_enter
deeper td m e = omega (arith, e)

exit-IsKept :
    (m : Switcher) (td : Critical) (n : ℕ)
    → td.critnest ≡ suc n
    → IsKept td
    → (td' : Critical) × (critical_exit m false td ≡ some td') × (td'.critnest ≡ n) × IsKept td'
unfolding critical_exit
exit-IsKept m td zero e k = elim (Bool-cases td.owepreempt) [
  | inl o ↦
      let (kept, same) = switch-IsKept m (record td { critnest = 0 }) refl k.outside in
      (switch_away m (record td { critnest = 0 }), rw (e, o) refl, same, kept)
  | inr o ↦ (
    record td { critnest = 0 },
    ground (arith, e, o),
    refl,
    record { answered = λ z. o; outside = k.outside },
  )
]
exit-IsKept m td (suc n) e k = (
  record td { critnest = td.critnest - 1 },
  ground (arith, e),
  omega (arith, e),
  record { answered = λ z. absurd (omega (arith, e, z)); outside = k.outside },
)

events_from :
    (w : Switcher) (es : List Event) (td : Critical) (m n : ℕ)
    → IsKept td
    → td.critnest ≡ m
    → depth es m ≡ some n
    → (td' : Critical) × (events w es td ≡ some td') × (td'.critnest ≡ n) × IsKept td'
unfolding events event depth
events_from w [] td m n k at d = (td, refl, ground (arith, at, d), k)
events_from w (enter ∷ es) td m n k at d =
    events_from w es (critical_enter td) (m + 1) n (enter-IsKept td k) (deeper td m at) d
events_from w (leave ∷ es) td zero n k at d = absurd (cc)
events_from w (leave ∷ es) td (suc m) n k at d =
    let (td1, e, at1, k1) = exit-IsKept w td m at k in
    let (td2, f, at2, k2) = events_from w es td1 m n k1 at1 d in (td2, rw e f, at2, k2)
events_from w (preempt urgent ∷ es) td m n k at d =
    let (k1, same) = preempt-IsKept w urgent td k in
    events_from w es (sched_preempt w urgent td) m n k1 (same ∙ at) d

-- While the kernel debugger is not active, and mi_switch clears td_owepreempt and leaves td_critnest:
-- from a thread that owes no preemption outside of critical sections, any events that leave no section
-- that was not entered pass every assertion and end at their depth; every switch is made outside the
-- sections, and outside of them no preemption is owed.
pub events-IsKept :
    (m : Switcher) (es : List Event) (td : Critical) (n : ℕ)
    → IsKept td
    → depth es td.critnest ≡ some n
    → (td' : Critical) × (events m es td ≡ some td') × (td'.critnest ≡ n) × IsKept td'
events-IsKept m es td n k d = events_from m es td td.critnest n k refl d
