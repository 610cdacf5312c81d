-- ===== src/Smp/Idle/Conserves.antt =====
-- A processor stays idle only if there is no thread that it can take.
use free_bsd_messaround.Prelude.{
  ℕ, zero, suc, ◌+◌, ◌≤◌, ◌<◌, ◌≡◌, refl, inl, inr, Bool, true, false, Option, none, some, List, [],
  ◌∷◌, ◌==◌, ==_iff, if◌then◌else◌, Bool-cases, length, update, number_of, number_of-update,
  number_of_le, ℤ, ltb_ℤ, arith,
}
use free_bsd_messaround.Steal.{can_move, tdq_steal}
use free_bsd_messaround.Smp.{Mask, CpuGroup}
use free_bsd_messaround.Smp.Search.{in_group, in_group-lt}
use free_bsd_messaround.Smp.Finds.{Finds, IsDonor, parts_ne_zero, sched_highest-Finds}
use free_bsd_messaround.Smp.Move.{System, Board, then_put, move, tdq_move}
use free_bsd_messaround.Smp.Idle.{
  Idled, stays_idle, has_thread, switches, fails, runs_on, Step, up, restart, without, ends, others,
  is_loaded, switch_count, is_stale, after_move, idle_from, idle_round, idle_on, idle_loop,
  tdq_idled,
}

-- Something holds of each group.
abbrev pub AllGroups : (CpuGroup → Type 0) → List CpuGroup → Type 0
AllGroups fits [] = Unit {0}
AllGroups fits (cg ∷ groups) = fits cg × AllGroups fits groups

not_less_self : (a : ℤ) → ltb_ℤ a a ≡ false
not_less_self a = ground arith

module _ (b : Board) (steal_thresh : ℤ) (s : System) where
  -- The queues, with another state of the random numbers.
  abbrev pub with_random : ℕ → System
  with_random r = record s { randomval = r }

  -- The thread that this processor would take from another.
  abbrev pub taken_from : ℕ → Option ℕ
  taken_from c = tdq_steal b.config (can_move b.allowed s.threads b.self) (s.tdq_cpu c)

  -- No processor of the group that is loaded enough has a thread for this one.
  abbrev pub Exhausted : CpuGroup → Type 0
  Exhausted cg =
      (c : ℕ)
      → in_group b.mp_maxid cg c ≡ true
      → IsDonor s.tdq_cpu (others b.self) steal_thresh c
      → taken_from c ≡ none

  -- What the end says of the queues.
  abbrev pub Ended : List CpuGroup → Idled → Type 0
  Ended groups (stays_idle s') = ((r : ℕ) × (s' ≡ with_random r)) × AllGroups Exhausted groups
  Ended groups (has_thread s') = is_loaded (s.tdq_cpu b.self) ≡ true
  Ended groups (switches s') =
      (c : ℕ) × (td : ℕ) × (others b.self c ≡ true) × (taken_from c ≡ some td)
  Ended groups fails = Unit {0}
  Ended groups runs_on = ⊥

  -- What a round says of the group.
  abbrev Stepped : Mask → CpuGroup → Step → Type 0
  Stepped mask cg (up s') =
      ((r : ℕ) × (s' ≡ with_random r))
      × ((c : ℕ) → in_group b.mp_maxid cg c ≡ true → ¬ (IsDonor s.tdq_cpu mask steal_thresh c))
  Stepped mask cg (restart s') = ⊥
  Stepped mask cg (without s' c) =
      ((r : ℕ) × (s' ≡ with_random r))
      × (c < b.mp_maxid + 1)
      × (mask c ≡ true)
      × (taken_from c ≡ none)
  Stepped mask cg (ends (stays_idle s')) = ⊥
  Stepped mask cg (ends (has_thread s')) = is_loaded (s.tdq_cpu b.self) ≡ true
  Stepped mask cg (ends (switches s')) =
      (c : ℕ) × (td : ℕ) × (mask c ≡ true) × (taken_from c ≡ some td)
  Stepped mask cg (ends fails) = Unit {0}
  Stepped mask cg (ends runs_on) = ⊥

  fresh :
      (mask : Mask) (c : ℕ)
      → IsDonor s.tdq_cpu mask steal_thresh c
      → is_stale b steal_thresh (s.tdq_cpu c) ≡ false
  unfolding is_stale
  fresh mask c (m, l, t) = ground (arith, l, parts_ne_zero (s.tdq_cpu c).transferable t)

  then_put-Stepped :
      (mask : Mask) (cg : CpuGroup) (c td : ℕ) (o : Option System)
      → mask c ≡ true
      → taken_from c ≡ some td
      → Stepped mask cg (after_move b steal_thresh c (then_put b td b.self o))
  unfolding after_move
  then_put-Stepped mask cg c td none m e = tt
  then_put-Stepped mask cg c td (some s') m e = (c, td, m, e)

  move-Stepped :
      (mask : Mask) (cg : CpuGroup) (c r : ℕ) (o : Option ℕ)
      → taken_from c ≡ o
      → c < b.mp_maxid + 1
      → mask c ≡ true
      → Stepped mask cg (after_move b steal_thresh c (move b (with_random r) b.self o))
  unfolding after_move move
  move-Stepped mask cg c r none e l m = ((r, refl), l, m, e)
  move-Stepped mask cg c r (some td) e l m = then_put-Stepped mask cg c td _ m e

  idle_from-Stepped :
      (mask : Mask) (cg : CpuGroup) (r : ℕ) (o : Option ℕ)
      → is_loaded (s.tdq_cpu b.self) ≡ false
      → Finds (in_group b.mp_maxid cg) (IsDonor s.tdq_cpu mask steal_thresh) o
      → Stepped mask cg
          (idle_from b steal_thresh (with_random r) (switch_count (s.tdq_cpu b.self)) o)
  unfolding idle_from tdq_move
  idle_from-Stepped mask cg r none free f = ((r, refl), f)
  idle_from-Stepped mask cg r (some c) free (g, d) =
      let f = fresh mask c d in
      let same = not_less_self (switch_count (s.tdq_cpu b.self)) in
      rw f (
        rw free (
          rw same
            (move-Stepped mask cg c r (taken_from c) refl (in_group-lt b.mp_maxid cg c g) d.0)))

  loaded_or :
      (loaded : Bool) (mask : Mask) (cg : CpuGroup) (s' : System) (next : Step)
      → is_loaded (s.tdq_cpu b.self) ≡ loaded
      → (loaded ≡ false → Stepped mask cg next)
      → Stepped mask cg (if loaded then ends (has_thread s') else next)
  loaded_or true mask cg s' next e p = e
  loaded_or false mask cg s' next e p = p refl

  idle_round-Stepped :
      (mask : Mask) (cg : CpuGroup) (r : ℕ)
      → Stepped mask cg
          (idle_round b steal_thresh (with_random r) (switch_count (s.tdq_cpu b.self)) mask cg)
  unfolding idle_round
  idle_round-Stepped mask cg r = loaded_or (is_loaded (s.tdq_cpu b.self)) mask cg _ _ refl (λ free.
      idle_from-Stepped mask cg _ _ free
        (sched_highest-Finds b.mp_maxid s.tdq_cpu cg mask steal_thresh r))

  -- The processors that have left the mask have nothing for this one.
  abbrev Cleared : Mask → Type 0
  Cleared mask = (c : ℕ) → others b.self c ≡ true → mask c ≡ false → taken_from c ≡ none

  Cleared-update :
      (mask : Mask) (d : ℕ) → taken_from d ≡ none → Cleared mask → Cleared (update mask d false)
  Cleared-update mask d e k = λ c o m. elim (Bool-cases (c == d)) [
    | inl f ↦ let q : c ≡ d = (==_iff c d).0 f in rw q e
    | inr f ↦ k c o (ground (arith, f, m))
  ]

  -- Together with the groups above, a group that has nothing is exhausted too.
  Ended-more :
      (mask : Mask) (cg : CpuGroup) (above : List CpuGroup) (i : Idled)
      → Cleared mask
      → ((c : ℕ) → in_group b.mp_maxid cg c ≡ true → ¬ (IsDonor s.tdq_cpu mask steal_thresh c))
      → Ended above i
      → Ended (cg ∷ above) i
  Ended-more mask cg above (stays_idle s') k f (e, rest) = (
    e,
    (
      λ c g d. elim (Bool-cases (mask c)) [
        | inl m ↦ absurd (f c g (m, d.1, d.2))
        | inr m ↦ k c d.0 m
      ],
      rest,
    ),
  )
  Ended-more mask cg above (has_thread s') k f e = e
  Ended-more mask cg above (switches s') k f e = e
  Ended-more mask cg above fails k f e = e
  Ended-more mask cg above runs_on k f e = e

  -- The mask has only other processors.
  abbrev Within : Mask → Type 0
  Within mask = (c : ℕ) → mask c ≡ true → others b.self c ≡ true

  Within-update : (mask : Mask) (d : ℕ) → Within mask → Within (update mask d false)
  Within-update mask d w = λ c m. elim (Bool-cases (c == d)) [
    | inl f ↦ absurd (ground (arith, f, m))
    | inr f ↦ w c (ground (arith, f, m))
  ]

  module _ (groups : List CpuGroup) where
    -- The loop, from some state of the random numbers.
    abbrev loop : ℕ → ℕ → Mask → List CpuGroup → Idled
    loop n r mask gs =
        idle_loop b steal_thresh groups n (with_random r) (switch_count (s.tdq_cpu b.self)) mask gs

    abbrev LoopEnds : ℕ → Type 0
    LoopEnds n =
        (r : ℕ) (mask : Mask) (gs : List CpuGroup)
        → Cleared mask
        → Within mask
        → length gs + number_of mask (b.mp_maxid + 1) ≤ n
        → Ended gs (loop n r mask gs)

    idle_on-Ended :
        (n : ℕ) (mask : Mask) (cg : CpuGroup) (above : List CpuGroup) (step : Step)
        → LoopEnds n
        → Cleared mask
        → Within mask
        → length above + number_of mask (b.mp_maxid + 1) ≤ n
        → Stepped mask cg step
        → Ended (cg ∷ above) (
            idle_on b steal_thresh groups
              (switch_count (s.tdq_cpu b.self))
              mask
              cg
              above
              (idle_loop b steal_thresh groups n)
              step)
    unfolding idle_on
    idle_on-Ended n mask cg above (up s') next k w l ((r, e), f) =
        rw e (Ended-more mask cg above _ k f (next r mask above k w l))
    idle_on-Ended n mask cg above (restart s') next k w l p = absurd p
    idle_on-Ended n mask cg above (without s' c) next k w l ((r, e), m, t, none_left) = rw e (
        next r (update mask c false) (cg ∷ above) (Cleared-update mask c none_left k)
          (Within-update mask c w)
          (ground (arith, l, t, number_of-update mask c (b.mp_maxid + 1) false m)))
    idle_on-Ended n mask cg above (ends (stays_idle s')) next k w l p = absurd p
    idle_on-Ended n mask cg above (ends (has_thread s')) next k w l p = p
    idle_on-Ended n mask cg above (ends (switches s')) next k w l (c, td, m, t) = (c, td, w c m, t)
    idle_on-Ended n mask cg above (ends fails) next k w l p = tt
    idle_on-Ended n mask cg above (ends runs_on) next k w l p = absurd p

    loop-Ended : (n : ℕ) → LoopEnds n
    unfolding idle_loop
    loop-Ended n r mask [] k w l = ((r, refl), tt)
    loop-Ended zero r mask (cg ∷ above) k w l = absurd (omega (arith, l))
    loop-Ended (suc n) r mask (cg ∷ above) k w l =
        idle_on-Ended n mask cg above _ (loop-Ended n) k w (omega (arith, l))
          (idle_round-Stepped mask cg r)

  -- With the processors started and stealing allowed, tdq_idled ends: with 1 only if no processor
  -- of the groups that has the load asked for and a count of transferable threads that is not 0
  -- has a thread that tdq_steal would give to this one; with 0 without a switch only if this one
  -- has load; with a switch only if there was such a thread; or by a fault in the lottery or the
  -- failed assertion of tdq_runq_rem.
  pub tdq_idled-Ended :
      (groups : List CpuGroup) → Ended groups (tdq_idled b steal_thresh true true groups s)
  unfolding tdq_idled
  tdq_idled-Ended groups =
      loop-Ended groups _ s.randomval (others b.self) groups (λ c o m. absurd (cc (o, m)))
        (λ c m. m) (omega (arith, number_of_le (others b.self) (b.mp_maxid + 1)))
