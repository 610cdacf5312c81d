-- ===== src/Runq/Tests.antt =====
-- Runs of the run queues on a machine whose status is 32 words of two bits.
use free_bsd_messaround.Prelude.{
  ℕ, zero, suc, ◌*◌, ◌<◌, ◌≤◌, ◌≡◌, refl, true, false, none, inl, inr, Bool-cases, arith, has, pos,
  ◌==◌, sym, if◌then◌else◌,
}
use free_bsd_messaround.Runq.{Machine, Word, Runq, Store, runq_init, runq_add, runq_choose, enqueue}
use free_bsd_messaround.Runq.Invariant.{IsConsistent, runq_init-IsConsistent, runq_add-IsConsistent}
use free_bsd_messaround.Runq.Choose.{IsBest, runq_choose-IsBest}
use free_bsd_messaround.Runq.Serve.{IsIndexed, waiting, serve, serve-has}

abbrev pub low_bit : Word → ℕ
low_bit w = if w 0 then 0 else 1

pub low_bit_lem : (w : Word) (j : ℕ) → j < 2 → w j ≡ true → (w (low_bit w) ≡ true) × (low_bit w ≤ j)
low_bit_lem w zero l h = rw h (h, omega arith)
low_bit_lem w (suc zero) l h = elim (Bool-cases (w 0)) [
  | inl e ↦ rw e (e, omega arith)
  | inr e ↦ rw e (h, omega arith)
]
low_bit_lem w (suc (suc j)) l h = absurd (omega arith)

abbrev pub machine : Machine
machine = record {
  len = 32;
  bpw = 2;
  ffs = low_bit;
  bpw_pos = omega arith;
  covers = refl;
  ffs_lowest = low_bit_lem;
}

-- Threads of priority 4 * td, with no tickets but one.
abbrev pub threads : Store
threads td = record {
  priority = 4 * td;
  rqindex = 0;
  lastcpu = 0;
  nice = pos td;
  pid = td;
  uid = 1001;
  pinned = 0;
  noload = false;
  xferable = false;
  runnable = true;
  runq = none;
}

-- Thread 5 in queue 5.
abbrev pub one_queued : Runq
one_queued = (runq_add machine threads runq_init 5 false).1

one_queued-IsConsistent : IsConsistent machine one_queued
one_queued-IsConsistent =
    runq_add-IsConsistent machine threads runq_init 5 false (runq_init-IsConsistent machine)

runq_choose-IsBest_example : IsBest one_queued (runq_choose machine one_queued)
runq_choose-IsBest_example = runq_choose-IsBest machine one_queued one_queued-IsConsistent

nine_absent : has 9 (one_queued.queues 9) ≡ false
unfolding runq_add enqueue runq_init
nine_absent = refl

-- The threads with thread 5 in its queue.
abbrev indexed : Store
indexed = (runq_add machine threads runq_init 5 false).0

only_five : (td p : ℕ) → has td (one_queued.queues p) ≡ true → (td ≡ 5) × (p ≡ 5)
unfolding runq_add enqueue runq_init
only_five td p h = elim (Bool-cases (p == 5)) [
  | inl e ↦ (ground (arith, h, e), ground (arith, e))
  | inr e ↦ absurd (ground (arith, h, e))
]

indexed-IsIndexed : IsIndexed machine indexed one_queued
unfolding IsIndexed runq_add
indexed-IsIndexed = λ td p l h. let (e, f) = only_five td p h in rw e (sym f)

five_waits : (has 5 (one_queued.queues 5) ≡ true) × (waiting one_queued.queues 64 ≡ 1)
unfolding runq_add enqueue runq_init waiting
five_waits = (refl, refl)

serve-has_example : has 5 (serve machine indexed 1 one_queued) ≡ true
serve-has_example =
    serve-has machine indexed 1 one_queued 5 5 one_queued-IsConsistent indexed-IsIndexed
      (omega arith) five_waits.0 (omega (arith, five_waits.1))
