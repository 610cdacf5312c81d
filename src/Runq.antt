-- ===== src/Runq.antt =====
-- asgn2/sys/runq.h and the run-queue half of asgn2/kern/kern_switch.c: 64 queues of threads with a
-- bit for each, and the lottery queue that the repository adds. A thread is a number, which stands
-- for its address; its fields lie in a store, since the queues hold pointers.
pub mod Words
pub mod Invariant
pub mod Choose
pub mod Remove
pub mod Serve
pub mod Tests
use free_bsd_messaround.Prelude.{
  ℕ, zero, suc, ◌+◌, ◌-◌, ◌*◌, ◌/◌, ◌%◌, ◌≤◌, ◌<◌, ◌≡◌, Bool, true, false, ◌&&◌, not, Option, none,
  some, List, [], ◌∷◌, ◌++◌, ltb, leb, ◌==◌, if◌then◌else◌, is_empty, erase, update, ℤ,
}

-- Number of run queues, and of priorities in a queue.
abbrev pub rq_nqs : ℕ
rq_nqs = 64

abbrev pub rq_ppq : ℕ
rq_ppq = 4

-- A status word by its bits.
abbrev pub Word : Type 0
Word = ℕ → Bool

-- What machine/runq.h of the kernel says of status words: RQB_LEN words of RQB_BPW bits, one bit
-- for each queue, and RQB_FFS, the number of the lowest bit that is set.
pub record Machine : Type 0 where
  pub len : ℕ
  pub bpw : ℕ
  pub ffs : Word → ℕ
  pub bpw_pos : 0 < bpw
  pub covers : len * bpw ≡ rq_nqs
  pub ffs_lowest : (w : Word) (j : ℕ) → j < bpw → w j ≡ true → (w (ffs w) ≡ true) × (ffs w ≤ j)

-- struct runq: rq_status and rq_queues. A TAILQ is the list of its threads, head first.
pub record Runq : Type 0 where
  pub status : ℕ → Word
  pub queues : ℕ → List ℕ

-- The run queues of a processor, as ts_runq names them.
pub data QueueName : Type 0 where
  realtime timeshare lottery idle : QueueName

-- The fields of struct thread, struct td_sched and struct proc that the queues read or write.
pub record Thread : Type 0 where
  pub priority : ℕ
  pub rqindex : ℕ
  pub lastcpu : ℕ
  pub nice : ℤ
  pub pid : ℕ
  pub uid : ℕ
  pub pinned : ℕ
  pub noload : Bool
  pub xferable : Bool
  pub runnable : Bool
  pub runq : Option QueueName

abbrev pub Store : Type 0
Store = ℕ → Thread

abbrev pub ones : Word
ones j = true

abbrev pub and_word : Word → Word → Word
and_word w v j = w j && v j

-- Whether a word is not zero.
unfoldable pub nonzero : ℕ → Word → Bool
nonzero zero w = false
nonzero (suc n) w = elim (w n) [ true ↦ true | false ↦ nonzero n w ]

-- runq_init: everything is zero and every queue empty.
unfoldable pub runq_init : Runq
runq_init = record { status = λ _ _. false; queues = λ _. [] }

-- The second pass of a search, made when the first has found nothing.
or_wrap : Option ℕ → Option ℕ → Option ℕ
or_wrap (some p) again = some p
or_wrap none again = again

module _ (m : Machine) where
  -- RQB_WORD and the number of RQB_BIT.
  abbrev pub rqb_word : ℕ → ℕ
  rqb_word pri = pri / m.bpw

  abbrev pub rqb_bit : ℕ → ℕ
  rqb_bit pri = pri % m.bpw

  pub write_bit : Bool → Runq → ℕ → Runq
  write_bit b rq pri = record rq {
    status = update rq.status (rqb_word pri) (update (rq.status (rqb_word pri)) (rqb_bit pri) b);
  }

  abbrev pub runq_clrbit : Runq → ℕ → Runq
  runq_clrbit = write_bit false

  abbrev pub runq_setbit : Runq → ℕ → Runq
  runq_setbit = write_bit true

  -- The loop over the words, i the next word and n the words left.
  pub findbit_loop : Runq → ℕ → ℕ → Option ℕ
  findbit_loop rq zero i = none
  findbit_loop rq (suc n) i =
      let rest = findbit_loop rq n (i + 1) in
      if nonzero m.bpw (rq.status i) then some (m.ffs (rq.status i) + i * m.bpw) else rest

  -- `none` is -1.
  pub runq_findbit : Runq → Option ℕ
  unfolding findbit_loop
  runq_findbit rq = findbit_loop rq m.len 0

  pub findbit_from_loop : Runq → ℕ → ℕ → Word → Option ℕ
  findbit_from_loop rq zero i mask = none
  findbit_from_loop rq (suc n) i mask =
      let rest = findbit_from_loop rq n (i + 1) ones in
      let masked = and_word (rq.status i) mask in
      if nonzero m.bpw masked then some (m.ffs masked + i * m.bpw) else rest

  -- The second pass starts at word 0 with the mask that the first one left, all ones.
  pub runq_findbit_from : Runq → ℕ → Option ℕ
  unfolding findbit_from_loop or_wrap
  runq_findbit_from rq pri =
      or_wrap
        (findbit_from_loop rq (m.len - rqb_word pri) (rqb_word pri) (λ j. leb (rqb_bit pri) j))
        (if pri == 0 then none else findbit_from_loop rq m.len 0 ones)

  pub check_loop : Runq → ℕ → ℕ → Bool
  check_loop rq zero i = false
  check_loop rq (suc n) i =
      let rest = check_loop rq n (i + 1) in if nonzero m.bpw (rq.status i) then true else rest

  pub runq_check : Runq → Bool
  unfolding check_loop
  runq_check rq = check_loop rq m.len 0

  -- The end of runq_add and runq_add_pri: the bit, and the thread at the head or the tail.
  unfoldable pub enqueue : Runq → ℕ → ℕ → Bool → Runq
  unfolding write_bit
  enqueue rq td pri preempted =
      let rq' = runq_setbit rq pri in
      record rq' {
        queues =
            update rq.queues pri
              (if preempted then td ∷ rq.queues pri else rq.queues pri ++ (td ∷ []));
      }

  -- `preempted` is flags & SRQ_PREEMPTED, and `pri` is below RQ_NQS, as the code asserts.
  unfoldable pub runq_add_pri : Store → Runq → ℕ → ℕ → Bool → Store × Runq
  unfolding enqueue
  runq_add_pri s rq td pri preempted =
      let t = s td in (update s td (record t { rqindex = pri }), enqueue rq td pri preempted)

  unfoldable pub runq_add : Store → Runq → ℕ → Bool → Store × Runq
  unfolding enqueue
  runq_add s rq td preempted =
      let t = s td in
      let pri = t.priority / rq_ppq in
      (update s td (record t { rqindex = pri }), enqueue rq td pri preempted)

  -- The thread joins at the head of queue 0; td_rqindex is not written.
  unfoldable pub lottery_q_add : Runq → ℕ → Runq
  unfolding enqueue
  lottery_q_add rq td = enqueue rq td 0 true

  -- TAILQ_REMOVE of a thread that stands in the queue, and the bit is cleared when the queue has become
  -- empty. For a thread that does not stand there, which the C does not check, the list is left as it
  -- is.
  pub dequeue : Runq → ℕ → ℕ → Runq
  unfolding write_bit
  dequeue rq td pri =
      let rest = erase td (rq.queues pri) in
      let rq' = record rq { queues = update rq.queues pri rest } in
      if is_empty rest then runq_clrbit rq' pri else rq'

  pub lottery_q_remove : Runq → ℕ → Runq
  unfolding dequeue
  lottery_q_remove rq td = dequeue rq td 0

  -- The index that the caller passes moves on when its queue has become empty; `none` is NULL.
  pub runq_remove_idx : Store → Runq → ℕ → Option ℕ → Runq × Option ℕ
  unfolding dequeue
  runq_remove_idx s rq td idx =
      let pri = (s td).rqindex in
      (
        dequeue rq td pri,
        elim idx [
          | none ↦ none
          | some i ↦
              some (
                if is_empty (erase td (rq.queues pri)) && (i == pri) then (pri + 1) % rq_nqs else i)
        ],
      )

  pub runq_remove : Store → Runq → ℕ → Runq
  unfolding runq_remove_idx
  runq_remove s rq td = (runq_remove_idx s rq td none).0

abbrev pub first : List ℕ → Option ℕ
first [] = none
first (td ∷ rest) = some td

module _ (m : Machine) where
  -- The loops of the choosing functions return in their first round.
  pub head_at : Runq → Option ℕ → Option ℕ
  head_at rq none = none
  head_at rq (some pri) = first (rq.queues pri)

  pub runq_choose : Runq → Option ℕ
  unfolding head_at runq_findbit
  runq_choose rq = head_at rq (runq_findbit m rq)

  pub runq_choose_from : Runq → ℕ → Option ℕ
  unfolding head_at runq_findbit_from
  runq_choose_from rq idx = head_at rq (runq_findbit_from m rq idx)

  -- The first of the next `count` threads that ran last on this processor.
  pub fuzz_loop : Store → ℕ → ℕ → Option ℕ → List ℕ → Option ℕ
  fuzz_loop s cpu zero td rest = td
  fuzz_loop s cpu (suc n) td [] = td
  fuzz_loop s cpu (suc n) td (x ∷ rest) =
      let later = fuzz_loop s cpu n td rest in if (s x).lastcpu == cpu then some x else later

  pub fuzz_at : Store → Runq → ℕ → ℕ → Option ℕ → Option ℕ
  unfolding fuzz_loop
  fuzz_at s rq fuzz cpu none = none
  fuzz_at s rq fuzz cpu (some pri) =
      let q = rq.queues pri in if ltb 1 fuzz then fuzz_loop s cpu fuzz (first q) q else first q

  pub runq_choose_fuzz : Store → Runq → ℕ → ℕ → Option ℕ
  unfolding fuzz_at runq_findbit
  runq_choose_fuzz s rq fuzz cpu = fuzz_at s rq fuzz cpu (runq_findbit m rq)
