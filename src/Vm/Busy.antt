-- ===== src/Vm/Busy.antt =====
-- asgn3/vm/vm_page.c and vm_page.h: the busy word of a page, on which no two threads act at once, so
-- that every atomic_cmpset finds the word that was read. A call gives the new word, its answer, and
-- whether it wakes the threads that wait; none is a failed assertion.
pub mod Abstract
use free_bsd_messaround.Prelude.{
  ℕ, ◌+◌, ◌-◌, ◌*◌, ◌/◌, ◌%◌, ◌^◌, Bool, true, false, ◌&&◌, ◌||◌, not, Option, none, some, ltb,
  ◌==◌, if◌then◌else◌,
}
use free_bsd_messaround.Vm.{
  vpb_bit_shared, vpb_bit_waiters, vpb_single_exclusiver, vpb_unbusied, has_bit,
}

-- VPB_SHARERS, VPB_SHARERS_WORD and VPB_ONE_SHARER.
unfoldable pub vpb_sharers : ℕ → ℕ
vpb_sharers x = x / 8

unfoldable pub vpb_sharers_word : ℕ → ℕ
vpb_sharers_word n = n * 8 + vpb_bit_shared

abbrev pub vpb_one_sharer : ℕ
vpb_one_sharer = 8

abbrev pub Outcome : Type 0
Outcome = Option (ℕ × Bool × Bool)

unfoldable pub vm_page_trysbusy : ℕ → Outcome
vm_page_trysbusy x =
    if not (has_bit x vpb_bit_shared)
    then some (x, false, false)
    else some ((x + vpb_one_sharer) % 2 ^ 32, true, false)

unfoldable pub vm_page_tryxbusy : ℕ → Outcome
vm_page_tryxbusy x =
    if x == vpb_unbusied then some (vpb_single_exclusiver, true, false) else some (x, false, false)

-- vm_page_sbusied and vm_page_xbusied of a word.
unfoldable pub sbusied : ℕ → Bool
sbusied x = has_bit x vpb_bit_shared && not (x == vpb_unbusied)

unfoldable pub xbusied : ℕ → Bool
xbusied x = has_bit x vpb_single_exclusiver

unfoldable pub vm_page_sunbusy : ℕ → Outcome
unfolding sbusied vpb_sharers vpb_sharers_word
vm_page_sunbusy x =
    if not (sbusied x)
    then none
    else if ltb 1 (vpb_sharers x)
    then some (x - vpb_one_sharer, true, false)
    else if not (has_bit x vpb_bit_waiters)
    then (if x == vpb_sharers_word 1 then some (vpb_unbusied, true, false) else none)
    else if x == vpb_sharers_word 1 + vpb_bit_waiters
    then some (vpb_unbusied, true, true)
    else none

unfoldable pub vm_page_xunbusy_hard : ℕ → Outcome
unfolding xbusied
vm_page_xunbusy_hard x = if not (xbusied x) then none else some (vpb_unbusied, true, true)

unfoldable pub vm_page_xunbusy : ℕ → Outcome
vm_page_xunbusy x =
    if x == vpb_single_exclusiver then some (vpb_unbusied, true, false) else vm_page_xunbusy_hard x

-- The loop goes on until the word is that of one exclusive owner, with the waiters bit as it was
-- read; with another word it does not end, and stands here as none.
unfoldable pub vm_page_busy_downgrade : ℕ → Outcome
unfolding xbusied vpb_sharers_word
vm_page_busy_downgrade x =
    let waiters = if has_bit x vpb_bit_waiters then vpb_bit_waiters else 0 in
    if not (xbusied x)
    then none
    else if x == vpb_single_exclusiver + waiters
    then some (vpb_sharers_word 1, true, has_bit x vpb_bit_waiters)
    else none

-- The answer is whether the thread goes to sleep.
unfoldable pub vm_page_busy_sleep : Bool → ℕ → Outcome
vm_page_busy_sleep nonshared x =
    if x == vpb_unbusied || nonshared && has_bit x vpb_bit_shared
    then some (x, false, false)
    else if not (has_bit x vpb_bit_waiters)
    then some (x + vpb_bit_waiters, true, false)
    else some (x, true, false)

unfoldable pub vm_page_flash : ℕ → Outcome
vm_page_flash x =
    if not (has_bit x vpb_bit_waiters)
    then some (x, true, false)
    else some (x - vpb_bit_waiters, true, true)
