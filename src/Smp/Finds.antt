-- ===== src/Smp/Finds.antt =====
-- sched_highest and sched_lowest find a processor of the group that fits, if there is one.
use free_bsd_messaround.Prelude.{
  ℕ, zero, suc, ◌+◌, ◌≡◌, ◌≢◌, refl, Bool, true, false, Option, none, some, ◌==◌, ℤ, pos, negsuc,
  pos_part, neg_part, ◌≤ℤ◌, ◌<ℤ◌, arith,
}
use free_bsd_messaround.Tdq.{Tdq}
use free_bsd_messaround.Smp.{
  Mask, CpuGroup, lowest, highest, CpuSearch, allows, sched_lowest, sched_highest,
}
use free_bsd_messaround.Smp.Search.{Answers, in_group, cpu_search-Answers}

-- A processor of the mask with a load within the limit, on which a thread may be taken away.
abbrev pub IsDonor : (ℕ → Tdq) → Mask → ℤ → ℕ → Type 0
IsDonor tdq_cpu mask minload c =
    (mask c ≡ true) × (minload ≤ℤ (tdq_cpu c).load) × ((tdq_cpu c).transferable ≢ pos 0)

-- A processor of the mask with a load within the limit that runs nothing as urgent as pri.
abbrev pub IsTarget : (ℕ → Tdq) → Mask → ℤ → ℤ → ℕ → Type 0
IsTarget tdq_cpu mask pri maxload c =
    (mask c ≡ true) × (pri <ℤ pos (tdq_cpu c).lowpri) × ((tdq_cpu c).load ≤ℤ maxload)

-- A search returns a processor of the group that fits, or there is none that does.
abbrev pub Finds : (ℕ → Bool) → (ℕ → Type 0) → Option ℕ → Type 0
Finds group fits none = (c : ℕ) → group c ≡ true → ¬ (fits c)
Finds group fits (some c) = (group c ≡ true) × fits c

Answers-Finds :
    (ok group : ℕ → Bool) (fits : ℕ → Type 0) (r : Option ℕ)
    → ((c : ℕ) → ok c ≡ true → fits c)
    → ((c : ℕ) → fits c → ok c ≡ true)
    → Answers ok group r
    → Finds group fits r
Answers-Finds ok group fits none to from a = λ c g h. cc (a c g, from c h)
Answers-Finds ok group fits (some c) to from a = (a.0, to c a.1)

pub parts_ne_zero : (a : ℤ) → a ≢ pos 0 → (pos_part a + neg_part a == 0) ≡ false
parts_ne_zero (pos zero) h = absurd (h refl)
parts_ne_zero (pos (suc n)) h = ground arith
parts_ne_zero (negsuc n) h = ground arith

parts_zero : (a : ℤ) → a ≡ pos 0 → (pos_part a + neg_part a == 0) ≡ true
parts_zero a e = rw e refl

module _ (mp_maxid : ℕ) (tdq_cpu : ℕ → Tdq) where
  allows-IsDonor :
      (cs : CpuSearch) (c : ℕ)
      → allows mp_maxid tdq_cpu highest cs c ≡ true
      → IsDonor tdq_cpu cs.cs_mask cs.cs_limit c
  unfolding allows
  allows-IsDonor cs c e = (
    ground (arith, e),
    ground (arith, e),
    λ t. ground (arith, e, parts_zero (tdq_cpu c).transferable t),
  )

  IsDonor-allows :
      (cs : CpuSearch) (c : ℕ)
      → IsDonor tdq_cpu cs.cs_mask cs.cs_limit c
      → allows mp_maxid tdq_cpu highest cs c ≡ true
  unfolding allows
  IsDonor-allows cs c (m, l, t) = rw m (ground (arith, l, parts_ne_zero (tdq_cpu c).transferable t))

  -- sched_highest returns a processor of the group that is in the mask, has at least the load
  -- asked for and a count of transferable threads that is not 0, or -1 if the group has no such
  -- processor. The count includes threads of the lottery queue, which tdq_steal does not take.
  pub sched_highest-Finds :
      (cg : CpuGroup) (mask : Mask) (minload : ℤ) (state : ℕ)
      → Finds
          (in_group mp_maxid cg)
          (IsDonor tdq_cpu mask minload)
          (sched_highest mp_maxid tdq_cpu cg mask minload state).0
  unfolding sched_highest
  sched_highest-Finds cg mask minload state =
      Answers-Finds _ (in_group mp_maxid cg) (IsDonor tdq_cpu mask minload) _ (allows-IsDonor _)
        (IsDonor-allows _) (cpu_search-Answers mp_maxid tdq_cpu highest _ cg state)

  allows-IsTarget :
      (cs : CpuSearch) (c : ℕ)
      → allows mp_maxid tdq_cpu lowest cs c ≡ true
      → IsTarget tdq_cpu cs.cs_mask cs.cs_pri cs.cs_limit c
  unfolding allows
  allows-IsTarget cs c e = (ground (arith, e), ground (arith, e), ground (arith, e))

  IsTarget-allows :
      (cs : CpuSearch) (c : ℕ)
      → IsTarget tdq_cpu cs.cs_mask cs.cs_pri cs.cs_limit c
      → allows mp_maxid tdq_cpu lowest cs c ≡ true
  unfolding allows
  IsTarget-allows cs c (m, l, t) = rw m (ground (arith, l, t))

  -- sched_lowest returns a processor of the group that is in the mask, runs nothing as urgent as pri
  -- and has no more than the load allowed, or -1 if the group has no such processor.
  pub sched_lowest-Finds :
      (cg : CpuGroup) (mask : Mask) (pri maxload : ℤ) (prefer state : ℕ)
      → Finds
          (in_group mp_maxid cg)
          (IsTarget tdq_cpu mask pri maxload)
          (sched_lowest mp_maxid tdq_cpu cg mask pri maxload prefer state).0
  unfolding sched_lowest
  sched_lowest-Finds cg mask pri maxload prefer state =
      Answers-Finds _ (in_group mp_maxid cg) (IsTarget tdq_cpu mask pri maxload) _
        (allows-IsTarget _) (IsTarget-allows _)
        (cpu_search-Answers mp_maxid tdq_cpu lowest _ cg state)
