-- ===== src/Vm/Busy/Abstract.antt =====
-- The busy word is a lock that is shared by a number of threads or has one exclusive owner.
use free_bsd_messaround.Prelude.{
  ℕ, zero, suc, ◌+◌, ◌*◌, ◌^◌, ◌<◌, ◌≤◌, ◌≡◌, refl, ap, ◌∙◌, Bool, true, false, Option, none, some,
  List, [], ◌∷◌, if◌then◌else◌, length, arith,
}
use free_bsd_messaround.Vm.Busy.{
  Outcome, vm_page_trysbusy, vm_page_tryxbusy, vm_page_sunbusy, vm_page_xunbusy,
  vm_page_xunbusy_hard, vm_page_busy_downgrade, vm_page_busy_sleep, vm_page_flash, vpb_sharers,
  vpb_sharers_word, sbusied, xbusied,
}
use free_bsd_messaround.Vm.Outcome.{Ensures}

-- The lock, and whether threads wait for it. It is free if it is shared by none.
pub data Lock : Type 0 where
  shared : ℕ → Bool → Lock
  exclusive : Bool → Lock

abbrev pub sharers : Lock → ℕ
sharers (shared n w) = n
sharers (exclusive w) = 0

abbrev pub waiting : Bool → ℕ
waiting w = if w then 4 else 0

-- The word of a lock.
unfoldable pub word : Lock → ℕ
word (shared n w) = n * 8 + 1 + waiting w
word (exclusive w) = 2 + waiting w

pub data Call : Type 0 where
  trysbusy tryxbusy sunbusy xunbusy downgrade flash : Call
  sleep : Bool → Call

-- What a call does to the lock, its answer, and whether it wakes the threads that wait. To release
-- what is not held is a panic.
unfoldable pub lock_step : Call → Lock → Option (Lock × Bool × Bool)
lock_step trysbusy (shared n w) = some (shared (suc n) w, true, false)
lock_step trysbusy (exclusive w) = some (exclusive w, false, false)
lock_step tryxbusy (shared zero false) = some (exclusive false, true, false)
lock_step tryxbusy (shared zero true) = some (shared 0 true, false, false)
lock_step tryxbusy (shared (suc n) w) = some (shared (suc n) w, false, false)
lock_step tryxbusy (exclusive w) = some (exclusive w, false, false)
lock_step sunbusy (shared zero w) = none
lock_step sunbusy (shared (suc zero) w) = some (shared 0 false, true, w)
lock_step sunbusy (shared (suc (suc n)) w) = some (shared (suc n) w, true, false)
lock_step sunbusy (exclusive w) = none
lock_step xunbusy (shared n w) = none
lock_step xunbusy (exclusive w) = some (shared 0 false, true, w)
lock_step downgrade (shared n w) = none
lock_step downgrade (exclusive w) = some (shared 1 false, true, w)
lock_step flash (shared n w) = some (shared n false, true, w)
lock_step flash (exclusive w) = some (exclusive false, true, w)
lock_step (sleep nonshared) (shared zero false) = some (shared 0 false, false, false)
lock_step (sleep true) (shared zero true) = some (shared 0 true, false, false)
lock_step (sleep true) (shared (suc n) w) = some (shared (suc n) w, false, false)
lock_step (sleep false) (shared zero true) = some (shared 0 true, true, false)
lock_step (sleep false) (shared (suc n) w) = some (shared (suc n) true, true, false)
lock_step (sleep nonshared) (exclusive w) = some (exclusive true, true, false)

-- The function of vm_page.c that a call stands for.
unfoldable pub word_step : Call → ℕ → Outcome
word_step trysbusy x = vm_page_trysbusy x
word_step tryxbusy x = vm_page_tryxbusy x
word_step sunbusy x = vm_page_sunbusy x
word_step xunbusy x = vm_page_xunbusy x
word_step downgrade x = vm_page_busy_downgrade x
word_step flash x = vm_page_flash x
word_step (sleep nonshared) x = vm_page_busy_sleep nonshared x

abbrev pub in_words : Option (Lock × Bool × Bool) → Outcome
in_words none = none
in_words (some (l, answer, wakes)) = some (word l, answer, wakes)

word_step-lock_step :
    (c : Call) (l : Lock)
    → suc (sharers l) < 2 ^ 29
    → word_step c (word l) ≡ in_words (lock_step c l)
unfolding word_step lock_step word vm_page_trysbusy vm_page_tryxbusy vm_page_sunbusy vm_page_xunbusy
    vm_page_xunbusy_hard vm_page_busy_downgrade vm_page_busy_sleep vm_page_flash vpb_sharers
    vpb_sharers_word sbusied xbusied
word_step-lock_step trysbusy (shared n w) l = ground arith
word_step-lock_step trysbusy (exclusive w) l = ground arith
word_step-lock_step tryxbusy (shared zero false) l = refl
word_step-lock_step tryxbusy (shared zero true) l = refl
word_step-lock_step tryxbusy (shared (suc n) w) l = ground arith
word_step-lock_step tryxbusy (exclusive w) l = ground arith
word_step-lock_step sunbusy (shared zero w) l = ground arith
word_step-lock_step sunbusy (shared (suc zero) w) l = ground arith
word_step-lock_step sunbusy (shared (suc (suc n)) w) l = ground arith
word_step-lock_step sunbusy (exclusive w) l = ground arith
word_step-lock_step xunbusy (shared n w) l = ground arith
word_step-lock_step xunbusy (exclusive w) l = ground arith
word_step-lock_step downgrade (shared n w) l = ground arith
word_step-lock_step downgrade (exclusive w) l = ground arith
word_step-lock_step flash (shared n w) l = ground arith
word_step-lock_step flash (exclusive w) l = ground arith
word_step-lock_step (sleep nonshared) (shared zero false) l = refl
word_step-lock_step (sleep true) (shared zero true) l = refl
word_step-lock_step (sleep true) (shared (suc n) w) l = ground arith
word_step-lock_step (sleep false) (shared zero true) l = refl
word_step-lock_step (sleep false) (shared (suc n) w) l = ground arith
word_step-lock_step (sleep nonshared) (exclusive w) l = ground arith

-- Any sequence of calls, with the answers and wakeups of each.
abbrev pub Answers : Type 0
Answers = List (Bool × Bool)

abbrev pub with_answer {ℓ} :
    {A : Type ℓ} → Bool × Bool → Option (A × Answers) → Option (A × Answers)
with_answer answer none = none
with_answer answer (some (a, answers)) = some (a, answer ∷ answers)

abbrev pub goes_on {ℓ} :
    {A : Type ℓ} → Option (A × Bool × Bool) → (A → Option (A × Answers)) → Option (A × Answers)
goes_on none next = none
goes_on (some (a, answer, woken)) next = with_answer (answer, woken) (next a)

unfoldable pub run_words : List Call → ℕ → Option (ℕ × Answers)
run_words [] x = some (x, [])
run_words (c ∷ cs) x = goes_on (word_step c x) (run_words cs)

unfoldable pub run_locks : List Call → Lock → Option (Lock × Answers)
run_locks [] l = some (l, [])
run_locks (c ∷ cs) l = goes_on (lock_step c l) (run_locks cs)

abbrev pub ends_in_words : Option (Lock × Answers) → Option (ℕ × Answers)
ends_in_words none = none
ends_in_words (some (l, answers)) = some (word l, answers)

-- A call adds one sharer at most.
lock_step-sharers :
    (c : Call) (l : Lock)
    → Ensures (lock_step c l) (λ (r : Lock × Bool × Bool). sharers r.0 ≤ suc (sharers l))
unfolding lock_step
lock_step-sharers trysbusy (shared n w) = omega arith
lock_step-sharers trysbusy (exclusive w) = omega arith
lock_step-sharers tryxbusy (shared zero false) = omega arith
lock_step-sharers tryxbusy (shared zero true) = omega arith
lock_step-sharers tryxbusy (shared (suc n) w) = omega arith
lock_step-sharers tryxbusy (exclusive w) = omega arith
lock_step-sharers sunbusy (shared zero w) = tt
lock_step-sharers sunbusy (shared (suc zero) w) = omega arith
lock_step-sharers sunbusy (shared (suc (suc n)) w) = omega arith
lock_step-sharers sunbusy (exclusive w) = tt
lock_step-sharers xunbusy (shared n w) = tt
lock_step-sharers xunbusy (exclusive w) = omega arith
lock_step-sharers downgrade (shared n w) = tt
lock_step-sharers downgrade (exclusive w) = omega arith
lock_step-sharers flash (shared n w) = omega arith
lock_step-sharers flash (exclusive w) = omega arith
lock_step-sharers (sleep nonshared) (shared zero false) = omega arith
lock_step-sharers (sleep true) (shared zero true) = omega arith
lock_step-sharers (sleep true) (shared (suc n) w) = omega arith
lock_step-sharers (sleep false) (shared zero true) = omega arith
lock_step-sharers (sleep false) (shared (suc n) w) = omega arith
lock_step-sharers (sleep nonshared) (exclusive w) = omega arith

passes_on :
    (answer : Bool × Bool) (r : Option (Lock × Answers))
    → with_answer answer (ends_in_words r) ≡ ends_in_words (with_answer answer r)
passes_on answer none = refl
passes_on answer (some (l, answers)) = refl

-- One call and what follows, on words and on locks.
follows :
    (o : Option (Lock × Bool × Bool)) (cs : List Call) (bound : ℕ)
    → Ensures o (λ (r : Lock × Bool × Bool). sharers r.0 ≤ bound)
    → ((l : Lock) → sharers l ≤ bound → run_words cs (word l) ≡ ends_in_words (run_locks cs l))
    → goes_on (in_words o) (run_words cs) ≡ ends_in_words (goes_on o (run_locks cs))
follows none cs bound b same = refl
follows (some (l, answer, woken)) cs bound b same =
    ap (with_answer (answer, woken)) (same l b) ∙ passes_on (answer, woken) (run_locks cs l)

-- Any sequence of the calls that take, share, release, downgrade, await and flash the busy word of
-- a page gives the answers, the wakeups and the panics of a lock that is shared by a number of
-- threads or has one exclusive owner, and ends with the word of that lock, as long as the sharers
-- fit the word.
pub run_words-run_locks :
    (cs : List Call) (l : Lock)
    → sharers l + length cs < 2 ^ 29
    → run_words cs (word l) ≡ ends_in_words (run_locks cs l)
unfolding run_words run_locks
run_words-run_locks [] l fits = refl
run_words-run_locks (c ∷ cs) l fits = rw (word_step-lock_step c l (omega (arith, fits))) (
    follows (lock_step c l) cs (suc (sharers l)) (lock_step-sharers c l)
      (λ m b. run_words-run_locks cs m (omega (arith, fits, b))))
