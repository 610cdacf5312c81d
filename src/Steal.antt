-- ===== src/Steal.antt =====
-- runq_steal, runq_steal_from and tdq_steal of asgn2/kern/sched_ule.c, by which an idle processor
-- takes a thread from the queues of another.
pub mod First
pub mod Tests
use free_bsd_messaround.Prelude.{
  ℕ, zero, suc, ◌+◌, ◌-◌, ◌*◌, ◌/◌, ◌%◌, Bool, true, false, ◌&&◌, Option, none, some, List, [], ◌∷◌,
  ◌==◌, if◌then◌else◌,
}
use free_bsd_messaround.Runq.{Machine, Runq, Store, nonzero, rqb_word, rqb_bit}
use free_bsd_messaround.Tdq.{Config, Tdq}

-- A return inside a loop, or else what follows.
abbrev pub or_next : Option ℕ → Option ℕ → Option ℕ
or_next (some td) later = some td
or_next none later = later

-- What part of runq_steal_from ends with: it returns a thread, or goes on with the value of `first`.
pub data Scan : Type 0 where
  found : ℕ → Scan
  passed : Option ℕ → Scan

abbrev pub then_scan : Scan → (Option ℕ → Scan) → Scan
then_scan (found td) next = found td
then_scan (passed first) next = next first

-- THREAD_CAN_MIGRATE and THREAD_CAN_SCHED; `allowed` is the thread's set of processors.
abbrev pub can_move : (ℕ → ℕ → Bool) → Store → ℕ → ℕ → Bool
can_move allowed s cpu td = (s td).pinned == 0 && allowed td cpu

module _ (m : Machine) (ok : ℕ → Bool) (rq : Runq) where
  pub steal_queue : List ℕ → Option ℕ
  steal_queue [] = none
  steal_queue (td ∷ rest) = let later = steal_queue rest in if ok td then some td else later

  -- The loop over the bits of a word, `n` left and `bit` the next.
  pub steal_bits : ℕ → ℕ → ℕ → Option ℕ
  steal_bits word zero bit = none
  steal_bits word (suc n) bit =
      let rest = steal_bits word n (bit + 1) in
      if rq.status word bit
      then or_next (steal_queue (rq.queues (bit + word * m.bpw))) rest
      else rest

  pub steal_words : ℕ → ℕ → Option ℕ
  steal_words zero word = none
  steal_words (suc n) word =
      let rest = steal_words n (word + 1) in
      if nonzero m.bpw (rq.status word) then or_next (steal_bits word m.bpw 0) rest else rest

  pub runq_steal : Option ℕ
  runq_steal = steal_words m.len 0

  -- TAILQ_FOREACH of runq_steal_from.
  pub scan_queue : Option ℕ → List ℕ → Scan
  scan_queue first [] = passed first
  scan_queue none (td ∷ rest) = scan_queue (some td) rest
  scan_queue (some f) (td ∷ rest) =
      let later = scan_queue (some td) rest in if ok td then found td else later

  pub scan_bits : ℕ → ℕ → ℕ → Option ℕ → Scan
  scan_bits i zero bit first = passed first
  scan_bits i (suc n) bit first =
      let next = scan_bits i n (bit + 1) in
      if rq.status i bit
      then then_scan (scan_queue first (rq.queues (bit + i * m.bpw))) next
      else next first

  pub scan_words : ℕ → ℕ → ℕ → Option ℕ → Scan
  scan_words zero i bit first = passed first
  scan_words (suc n) i bit first =
      let next = scan_words n (i + 1) 0 in
      let from = if bit == 0 then m.ffs (rq.status i) else bit in
      if nonzero m.bpw (rq.status i)
      then then_scan (scan_bits i (m.bpw - from) from first) next
      else next first

  -- The test of `first` at the end.
  pub last_resort : Scan → Option ℕ
  last_resort (found td) = some td
  last_resort (passed none) = none
  last_resort (passed (some first)) = if ok first then some first else none

  -- The second pass starts with bit 0, as the loop of the first has left it.
  pub runq_steal_from : ℕ → Option ℕ
  runq_steal_from start =
      let r = scan_words (m.len - rqb_word m start) (rqb_word m start) (rqb_bit m start) none in
      last_resort (if start == 0 then r else then_scan r (scan_words m.len 0 0))

pub tdq_steal : Config → (ℕ → Bool) → Tdq → Option ℕ
tdq_steal k ok tdq = or_next (runq_steal k.machine ok tdq.rq_realtime) (
    or_next (runq_steal_from k.machine ok tdq.rq_timeshare tdq.ridx)
      (runq_steal k.machine ok tdq.rq_idle))
