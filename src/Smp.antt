-- ===== src/Smp.antt =====
-- The placement of threads among processors in asgn2/kern/sched_ule.c: the search of the tree of
-- processor groups for the lowest or highest load. A mask is a test of processor numbers, and TDQ_CPU
-- a function from them to their queues; no other processor changes a queue during a call.
pub mod Search
pub mod Finds
pub mod Pick
pub mod Move
pub mod Balance
pub mod Idle
pub mod Tests
use free_bsd_messaround.Prelude.{
  ℕ, zero, suc, ◌+◌, ◌-◌, ◌*◌, ◌/◌, ◌%◌, ◌^◌, Bool, true, false, ◌&&◌, ◌||◌, not, Option, none,
  some, ltb, leb, ◌==◌, if◌then◌else◌, ℤ, pos, negsuc, pos_part, neg_part, sub_ℕ, ◌-ℤ◌, ◌+ℤ◌, ltb_ℤ,
}
use free_bsd_messaround.Tdq.{Tdq}

abbrev pub Mask : Type 0
Mask = ℕ → Bool

-- struct cpu_group: cg_mask, cg_level, whether CG_FLAG_THREAD is set, and cg_child, whose last group
-- stands first, as the search takes it first.
mutual
  pub data CpuGroup : Type 0 where
    cpu_group : Mask → ℕ → Bool → Groups → CpuGroup

  pub data Groups : Type 0 where
    no_child : Groups
    child : CpuGroup → Groups → Groups

abbrev pub cg_mask : CpuGroup → Mask
cg_mask (cpu_group mask level thread children) = mask

-- The state randomval after sched_random, and its answer.
unfoldable pub next_random : ℕ → ℕ
next_random state = (state * 69069 + 5) % 2 ^ 32

unfoldable pub random_of : ℕ → ℕ
random_of state = state / 2 ^ 16

-- The match argument.
pub data Match : Type 0 where
  lowest highest : Match

-- struct cpu_search, without what the search finds. Masks, limits and preferences do not change on
-- the way down.
pub record CpuSearch : Type 0 where
  pub cs_mask : Mask
  pub cs_prefer : ℕ
  pub cs_pri : ℤ
  pub cs_limit : ℤ

-- What the search has found: the load of the path (lload or hload), cs_cpu and cs_load. That there
-- is none stands for cs_cpu = -1 and for the first values of lload and hload, which no load reaches.
pub record Best : Type 0 where
  pub load : ℤ
  pub cs_cpu : ℕ
  pub cs_load : ℤ

pub record Found : Type 0 where
  pub total : ℤ
  pub best : Option Best
  pub randomval : ℕ

abbrev pub times_256 : ℤ → ℤ
times_256 a = sub_ℕ (pos_part a * 256) (neg_part a * 256)

-- Whether a child with this load and cs_load replaces what was found.
unfoldable pub replaces : Match → ℤ → ℤ → Option Best → Bool
replaces match load cs_load none = true
replaces lowest load cs_load (some b) =
    ltb_ℤ load b.load || not (ltb_ℤ b.load load) && ltb_ℤ cs_load b.cs_load
replaces highest load cs_load (some b) =
    ltb_ℤ b.load load || not (ltb_ℤ load b.load) && ltb_ℤ b.cs_load cs_load

-- The comparison at the end of a round, for a child with a load, a processor and its cs_load.
unfoldable pub offer : Match → ℤ → Option (ℕ × ℤ) → Option Best → Option Best
offer match load none best = best
offer match load (some (cpu, cs_load)) best =
    if replaces match load cs_load best
    then some (record { load = load; cs_cpu = cpu; cs_load = cs_load })
    else best

abbrev pub candidate : Option Best → Option (ℕ × ℤ)
candidate none = none
candidate (some b) = some (b.cs_cpu, b.cs_load)

abbrev pub found_cpu : Option Best → Option ℕ
found_cpu none = none
found_cpu (some b) = some b.cs_cpu

-- cpumask without the masks of the children.
unfoldable pub nand_children : Mask → Groups → Mask
nand_children mask no_child cpu = mask cpu
nand_children mask (child g gs) cpu = nand_children mask gs cpu && not (cg_mask g cpu)

module _ (mp_maxid : ℕ) (tdq_cpu : ℕ → Tdq) where
  -- The tests of a processor.
  unfoldable pub allows : Match → CpuSearch → ℕ → Bool
  allows lowest cs cpu =
      ltb_ℤ cs.cs_pri (pos (tdq_cpu cpu).lowpri)
      && not (ltb_ℤ cs.cs_limit (tdq_cpu cpu).load)
      && cs.cs_mask cpu
  allows highest cs cpu =
      not (ltb_ℤ (tdq_cpu cpu).load cs.cs_limit)
      && not (pos_part (tdq_cpu cpu).transferable + neg_part (tdq_cpu cpu).transferable == 0)
      && cs.cs_mask cpu

  unfoldable pub cpu_load : Match → CpuSearch → ℕ → ℤ
  cpu_load lowest cs cpu =
      if cpu == cs.cs_prefer
      then times_256 (tdq_cpu cpu).load -ℤ pos 64
      else times_256 (tdq_cpu cpu).load
  cpu_load highest cs cpu = times_256 (tdq_cpu cpu).load

  -- A round for a processor.
  unfoldable pub visit : Match → CpuSearch → Found → ℕ → Found
  visit match cs f cpu =
      let state = next_random f.randomval in
      let load = cpu_load match cs cpu in
      record {
        total = f.total +ℤ load;
        best =
            offer match load
              (if allows match cs cpu then some (cpu, load -ℤ pos (random_of state % 32)) else none)
              f.best;
        randomval = state;
      }

  -- The rounds for the processors left in cpumask, the lowest number first, as CPU_FFS finds them;
  -- `n` numbers are left.
  unfoldable pub visit_cpus : Match → CpuSearch → Mask → ℕ → ℕ → Found → Found
  visit_cpus match cs cpumask zero cpu f = f
  visit_cpus match cs cpumask (suc n) cpu f =
      visit_cpus match cs cpumask n (cpu + 1) (if cpumask cpu then visit match cs f cpu else f)

  -- The rounds for the children, and those for the processors left.
  unfoldable mutual
    unfolding visit_cpus nand_children offer

    pub cpu_search : Match → CpuSearch → CpuGroup → ℕ → Found
    cpu_search match cs (cpu_group mask level thread children) state =
        visit_cpus match cs (nand_children mask children) (mp_maxid + 1) 0 (
          visit_children match cs children
            (record { total = pos 0; best = none; randomval = state }))

    pub visit_children : Match → CpuSearch → Groups → Found → Found
    visit_children match cs no_child f = f
    visit_children match cs (child g gs) f =
        let r = cpu_search match cs g f.randomval in
        visit_children match cs gs (record {
          total = f.total +ℤ r.total;
          best = offer match r.total (candidate r.best) f.best;
          randomval = r.randomval;
        })

  -- The processor found, `none` for -1, and randomval.
  unfoldable pub sched_lowest : CpuGroup → Mask → ℤ → ℤ → ℕ → ℕ → Option ℕ × ℕ
  sched_lowest cg mask pri maxload prefer state =
      let f =
        cpu_search lowest
          (record { cs_mask = mask; cs_prefer = prefer; cs_pri = pri; cs_limit = maxload }) cg
          state in
      (found_cpu f.best, f.randomval)

  unfoldable pub sched_highest : CpuGroup → Mask → ℤ → ℕ → Option ℕ × ℕ
  sched_highest cg mask minload state =
      let f =
        cpu_search highest
          (record { cs_mask = mask; cs_prefer = 0; cs_pri = pos 0; cs_limit = minload }) cg state in
      (found_cpu f.best, f.randomval)
