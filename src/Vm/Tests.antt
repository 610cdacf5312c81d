-- ===== src/Vm/Tests.antt =====
-- A machine of one domain whose mappings were never written through.
use free_bsd_messaround.Prelude.{
  number_of, ℕ, ◌+◌, ◌*◌, ◌≤◌, ◌<◌, ◌≡◌, refl, true, false, Option, none, some, List, [], ◌∷◌, ◌==◌,
  ◌/◌, not, if◌then◌else◌, bit_and, pos, arith, count, ◌+ℤ◌,
}
use free_bsd_messaround.Vm.{
  Page, PageQueue, VmObject, Memory, Kernel, pq_none, pq_inactive, pq_laundry, relink,
  vm_pagequeue_cnt_add, pq_vcnt, vm_page_busied,
}
use free_bsd_messaround.Vm.Queue.{
  vm_page_activate, vm_page_deactivate, vm_page_deactivate_noreuse, vm_page_launder,
  raise_act_count, vm_page_remque, vm_page_enqueue, funnelled, give_id, insert_tail, may_queue,
}
use free_bsd_messaround.Vm.Lists.{real_pages, Rises}
use free_bsd_messaround.Vm.Valid.{IsValid}
use free_bsd_messaround.Vm.Outcome.{Yields}
use free_bsd_messaround.Vm.Queued.{Queued, requests-Queued}
use free_bsd_messaround.Vm.Runs.{Steps, activates, start, next, Steps-IsValid}
use free_bsd_messaround.Vm.Isqrt.{isqrt, isqrt-root}
use free_bsd_messaround.Vm.Pageout.{scan_inactive, counts, new_page_line, inactive}
use free_bsd_messaround.Vm.Pageout.Cursor.{walk_list, scan_inactive-walk_list}
use free_bsd_messaround.Vm.Pageout.Count.{last_counts, new_page_line_fault}
use free_bsd_messaround.Vm.Busy.Abstract.{
  Call, shared, trysbusy, tryxbusy, sunbusy, sleep, word, run_words, run_locks, ends_in_words,
  run_words-run_locks,
}
use free_bsd_messaround.Vm.Oom.{
  Votes, IsCounted, Fair, vm_pageout_mightbe_oom, vm_pageout_mightbe_oom-Fair,
}
use free_bsd_messaround.Vm.Bits.{
  PageBits, vm_page_bits, block_bit, vm_page_zero_invalid, vm_page_set_validclean, vm_page_is_valid,
}
use free_bsd_messaround.Vm.Bits.Zero.{in_areas, vm_page_zero_invalid-zeroes}
use free_bsd_messaround.Vm.Bits.Range.{vm_page_set_validclean-valid}

abbrev kernel : Kernel
kernel = record {
  vm_phys_domain = λ m. 0;
  pmap_page_is_mapped = λ e m. false;
  pmap_is_modified = λ e m. false;
  has_memattr = λ e m. false;
  vm_page_count_min = λ e. false;
  enough_for_pageout = λ e. true;
}

-- A managed page of the first object that is on no queue.
abbrev fresh : Page
fresh = record {
  queue = pq_none;
  id = 0;
  marker = false;
  fictitious = false;
  zeroed = false;
  unholdfree = false;
  unmanaged = false;
  referenced = false;
  wire_count = 0;
  hold_count = 0;
  busy_lock = 1;
  act_count = 0;
  valid = 255;
  dirty = 0;
  object = some 0;
}

abbrev empty_queue : PageQueue
empty_queue = record { pq_pl = []; pq_cnt = pos 0 }

abbrev object : VmObject
object = record {
  memq = 1 ∷ 2 ∷ [];
  resident_page_count = pos 2;
  vnode = false;
  ref_count = 1;
  dead = false;
}

abbrev booted : Memory
booted = record {
  pages = λ x. fresh;
  vm_dom = λ d q. empty_queue;
  objects = λ o. object;
  pg_cnt = 0;
  vcnt = λ q. 0;
  v_wire_count = 0;
  vm_page_zero_count = 0;
  vm_pages_needed = true;
  vm_pageout_pages_needed = true;
  events = [];
}

booted-IsValid : IsValid kernel booted
unfolding real_pages Rises may_queue
booted-IsValid = record {
  placed = λ x d q r l. ground arith;
  queues = λ x r. refl;
  apart = λ x r n. refl;
  wired = λ x f. absurd (ground (arith, f));
  counted = λ d q l. refl;
  rises = λ d. omega arith;
}

abbrev returned : Option Memory → Memory
returned none = booted
returned (some s) = s

-- Two pages are activated.
abbrev one_in : Memory
one_in = returned (vm_page_activate kernel booted 1)

abbrev two_in : Memory
two_in = returned (vm_page_activate kernel one_in 2)

two_steps : Steps kernel booted 2 two_in
unfolding vm_page_activate raise_act_count vm_page_remque vm_page_enqueue funnelled give_id
    insert_tail relink vm_pagequeue_cnt_add pq_vcnt may_queue
two_steps = next (next start (activates 1 refl refl)) (activates 2 refl refl)

Steps-IsValid_example : IsValid kernel two_in
Steps-IsValid_example = Steps-IsValid kernel booted 2 two_in booted-IsValid (omega arith) two_steps

two_in-IsValid : IsValid kernel two_in
two_in-IsValid = Steps-IsValid kernel booted 2 two_in booted-IsValid (omega arith) two_steps

requests-Queued_example :
    Yields (vm_page_activate kernel booted 1) (Queued kernel booted 1 pq_inactive)
    × Yields (vm_page_deactivate kernel booted 1) (Queued kernel booted 1 pq_inactive)
    × Yields (vm_page_deactivate_noreuse kernel booted 1) (Queued kernel booted 1 pq_inactive)
    × Yields (vm_page_launder kernel booted 1) (Queued kernel booted 1 pq_laundry)
requests-Queued_example = requests-Queued kernel booted 1 booted-IsValid refl (omega arith)

two_in-list : inactive two_in 0 ≡ 1 ∷ 2 ∷ []
unfolding vm_page_activate raise_act_count vm_page_remque vm_page_enqueue funnelled give_id
    insert_tail relink vm_pagequeue_cnt_add pq_vcnt may_queue
two_in-list = refl

two_in-distinct : (x : ℕ) → count x (inactive two_in 0) ≤ 1
two_in-distinct x = rw two_in-list (ground arith)

-- Page 9 is the marker, and one page is short.
scan_inactive-walk_list_example :
    scan_inactive kernel 9 0 two_in (pos 1) ≡ walk_list kernel 9 0 2 two_in (1 ∷ 2 ∷ []) (pos 1)
unfolding vm_page_activate raise_act_count vm_page_remque vm_page_enqueue funnelled give_id
    insert_tail relink vm_pagequeue_cnt_add pq_vcnt may_queue ◌+ℤ◌
scan_inactive-walk_list_example =
    scan_inactive-walk_list kernel 9 0 two_in (pos 1) two_in-IsValid two_in-distinct refl

two_in-last : last_counts two_in.pages (inactive two_in 0) ≡ true
unfolding last_counts counts vm_page_busied vm_page_activate raise_act_count vm_page_remque
    vm_page_enqueue funnelled give_id insert_tail relink vm_pagequeue_cnt_add pq_vcnt may_queue
two_in-last = refl

-- The queue is empty.
new_page_line_fault_example : new_page_line booted 0 ≡ none
unfolding last_counts
new_page_line_fault_example = new_page_line_fault booted 0 refl

isqrt-root_example : (r : ℕ) × (isqrt 1000 ≡ some r) × (r * r ≤ 1000) × (1000 < (r + 1) * (r + 1))
isqrt-root_example = isqrt-root 1000 (omega arith)

abbrev calls : List Call
calls = trysbusy ∷ sleep false ∷ sunbusy ∷ tryxbusy ∷ trysbusy ∷ []

run_words-run_locks_example :
    run_words calls (word (shared 0 false)) ≡ ends_in_words (run_locks calls (shared 0 false))
run_words-run_locks_example = run_words-run_locks calls (shared 0 false) (omega arith)

-- The first of two domains has voted, and the second fails its only scan.
abbrev one_vote : Votes
one_vote = record {
  vmd_oom = λ d. d == 0;
  vmd_oom_seq = λ d. 0;
  vm_pageout_oom_vote = 1;
  kills = 0;
}

one_vote-IsCounted : IsCounted 2 1 (omega arith) one_vote
unfolding IsCounted number_of
one_vote-IsCounted = refl

vm_pageout_mightbe_oom-Fair_example :
    Fair 2 1 (omega arith) one_vote 1 (vm_pageout_mightbe_oom 2 1 one_vote 1 (pos 1) (pos 1))
vm_pageout_mightbe_oom-Fair_example =
    vm_pageout_mightbe_oom-Fair 2 1 (omega arith) one_vote 1 (pos 1) (pos 1) (omega arith)
      one_vote-IsCounted

vm_page_zero_invalid-zeroes_example :
    (in_areas 1600 (vm_page_zero_invalid 3 true).0 ≡ not (block_bit 3 (1600 / 512)))
    × ((vm_page_zero_invalid 3 true).1 ≡ (if true then 255 else 3))
vm_page_zero_invalid-zeroes_example = vm_page_zero_invalid-zeroes 3 1600 true (omega arith)

abbrev half_valid : PageBits
half_valid = record { valid = 15; dirty = 255; nosync = true; zeroed = []; modify_cleared = 0 }

vm_page_set_validclean-valid_example :
    (s' : PageBits) × (bits : ℕ) × (vm_page_set_validclean half_valid 1000 2000 ≡ some s')
    × (vm_page_bits 1000 2000 ≡ some bits)
    × (vm_page_is_valid s' 1000 2000 ≡ some true)
    × (bit_and s'.dirty bits ≡ 0)
vm_page_set_validclean-valid_example =
    vm_page_set_validclean-valid half_valid 1000 2000 (omega arith) (omega arith) (omega arith)
      (omega arith)
