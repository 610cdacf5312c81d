-- ===== src/Vm.antt =====
-- asgn3/vm: the FIFO page replacement. This file holds the data that vm_page.c and vm_pageout.c
-- share: struct vm_page, struct vm_pagequeue, the memory object and the counters, and the calls to
-- the rest of the kernel. A page is a number, which stands for its address.
pub mod Queue
pub mod Free
pub mod Wire
pub mod Lists
pub mod Valid
pub mod Steps
pub mod Agree
pub mod Outcome
pub mod Requests
pub mod Queued
pub mod Wired
pub mod Freed
pub mod Runs
pub mod Isqrt
pub mod Bits
pub mod Busy
pub mod Oom
pub mod Pageout
pub mod Tests
use free_bsd_messaround.Prelude.{
  ℕ, ◌+◌, ◌-◌, ◌^◌, ◌%◌, Bool, true, false, ◌&&◌, not, Option, none, some, List, [], ◌∷◌, ◌++◌, ltb,
  ◌==◌, if◌then◌else◌, update, ℤ, pos, negsuc, ◌+ℤ◌, ◌/◌,
}

-- The queues of a domain, by number.
abbrev pub pq_none : ℕ
pq_none = 255

abbrev pub pq_inactive : ℕ
pq_inactive = 0

abbrev pub pq_active : ℕ
pq_active = 1

abbrev pub pq_laundry : ℕ
pq_laundry = 2

abbrev pub pq_fifo : ℕ
pq_fifo = 3

abbrev pub pq_count : ℕ
pq_count = 4

-- The bits of the busy word.
abbrev pub vpb_bit_shared : ℕ
vpb_bit_shared = 1

abbrev pub vpb_bit_waiters : ℕ
vpb_bit_waiters = 4

abbrev pub vpb_single_exclusiver : ℕ
vpb_single_exclusiver = 2

abbrev pub vpb_unbusied : ℕ
vpb_unbusied = 1

-- All chunks of a page of 4096 bytes.
abbrev pub vm_page_bits_all : ℕ
vm_page_bits_all = 255

-- struct vm_page: the fields that the queues and the page daemon use. PG_MARKER, PG_FICTITIOUS,
-- PG_ZERO and PG_UNHOLDFREE are bits of flags, VPO_UNMANAGED one of oflags and PGA_REFERENCED one
-- of aflags.
pub record Page : Type 0 where
  pub queue : ℕ
  pub id : ℕ
  pub marker : Bool
  pub fictitious : Bool
  pub zeroed : Bool
  pub unholdfree : Bool
  pub unmanaged : Bool
  pub referenced : Bool
  pub wire_count : ℕ
  pub hold_count : ℕ
  pub busy_lock : ℕ
  pub act_count : ℕ
  pub valid : ℕ
  pub dirty : ℕ
  pub object : Option ℕ

-- struct vm_pagequeue without its mutex. A TAILQ is the list of its pages, head first.
pub record PageQueue : Type 0 where
  pub pq_pl : List ℕ
  pub pq_cnt : ℤ

-- The fields of struct vm_object that are used here: memq and resident_page_count, whether its type
-- is OBJT_VNODE, ref_count, and OBJ_DEAD.
pub record VmObject : Type 0 where
  pub memq : List ℕ
  pub resident_page_count : ℤ
  pub vnode : Bool
  pub ref_count : ℕ
  pub dead : Bool

-- The calls that leave these files, in the order they are made: the page goes to the physical
-- allocator, its mappings are removed, its slot in the object's tree is emptied, a vnode is
-- released, a thread that waits for a page, for free pages or for the daemon is woken, and the
-- idle loop that clears pages is.
pub data Event : Type 0 where
  frees removes_all empties_slot drops wakes resets_memattr : ℕ → Event
  wakes_free wakes_daemon wakes_zero_idle : Event

-- The pages, the queues of every domain (vm_dom), the objects, the next birthday (pg_cnt), the
-- counters that the queues keep in vm_cnt, one for each queue they belong to, and the calls made.
pub record Memory : Type 0 where
  pub pages : ℕ → Page
  pub vm_dom : ℕ → ℕ → PageQueue
  pub objects : ℕ → VmObject
  pub pg_cnt : ℕ
  pub vcnt : ℕ → ℕ
  pub v_wire_count : ℕ
  pub vm_page_zero_count : ℕ
  pub vm_pages_needed : Bool
  pub vm_pageout_pages_needed : Bool
  pub events : List Event

-- What the rest of the kernel answers: the domain of a page (vm_phys_domain), and, after the calls
-- made so far, whether the page is mapped, was modified through a mapping (which pmap_remove_all
-- then tells by vm_page_dirty) or has a memory attribute of its own, whether free pages are below the minimum (vm_page_count_min), and whether they reach
-- v_pageout_free_min.
pub record Kernel : Type 0 where
  pub vm_phys_domain : ℕ → ℕ
  pub pmap_page_is_mapped : List Event → ℕ → Bool
  pub pmap_is_modified : List Event → ℕ → Bool
  pub has_memattr : List Event → ℕ → Bool
  pub vm_page_count_min : List Event → Bool
  pub enough_for_pageout : List Event → Bool

-- A panic, of a failed KASSERT too, is `none`.
infixl 5 ◌>>=◌ ◌>>◌
abbrev pub ◌>>=◌ {ℓ κ} : {A : Type ℓ} {B : Type κ} → Option A → (A → Option B) → Option B
none >>= f = none
some a >>= f = f a

abbrev pub ◌>>◌ {ℓ κ} : {A : Type ℓ} {B : Type κ} → Option A → Option B → Option B
m >> n = m >>= λ _. n

abbrev pub kassert : Bool → Option (Unit {0})
kassert true = some tt
kassert false = none

-- m->... = ...
abbrev pub with_page : Memory → ℕ → Page → Memory
with_page s m p = record s { pages = update s.pages m p }

abbrev pub with_queue : Memory → ℕ → ℕ → PageQueue → Memory
with_queue s d q v = record s { vm_dom = λ d' q'. if d' == d && q' == q then v else s.vm_dom d' q' }

abbrev pub calls : Memory → Event → Memory
calls s e = record s { events = s.events ++ (e ∷ []) }

-- atomic_add_int on a counter of 32 bits.
abbrev pub add_int : ℕ → ℤ → ℕ
add_int w (pos n) = (w + n) % 2 ^ 32
add_int w (negsuc n) = (w + (2 ^ 32 - 1 - n)) % 2 ^ 32

-- The counter that pq_vcnt of a queue points to: the FIFO queue has that of the active queue.
unfoldable pub pq_vcnt : ℕ → ℕ
pq_vcnt q = if q == pq_fifo then pq_active else q

unfoldable pub vm_pagequeue_cnt_add : Memory → ℕ → ℕ → ℤ → Memory
unfolding pq_vcnt
vm_pagequeue_cnt_add s d q addend =
    let pq = s.vm_dom d q in
    let moved = with_queue s d q (record pq { pq_cnt = pq.pq_cnt +ℤ addend }) in
    record moved { vcnt = update s.vcnt (pq_vcnt q) (add_int (s.vcnt (pq_vcnt q)) addend) }

-- A page takes new fields while its queue takes a new list and its counts change.
unfoldable pub relink : Memory → ℕ → Page → ℕ → ℕ → List ℕ → ℤ → Memory
unfolding vm_pagequeue_cnt_add
relink s m p d q pl addend =
    vm_pagequeue_cnt_add (with_queue (with_page s m p) d q (record (s.vm_dom d q) { pq_pl = pl })) d
      q addend

-- word & bit, for a bit that is a power of two.
abbrev pub has_bit : ℕ → ℕ → Bool
has_bit word bit = word / bit % 2 == 1

-- Whether a page is busy, shared busy, or exclusively busy.
unfoldable pub vm_page_busied : Page → Bool
vm_page_busied p = not (p.busy_lock == vpb_unbusied)

unfoldable pub vm_page_sbusied : Page → Bool
vm_page_sbusied p = has_bit p.busy_lock vpb_bit_shared && not (p.busy_lock == vpb_unbusied)

unfoldable pub vm_page_xbusied : Page → Bool
vm_page_xbusied p = has_bit p.busy_lock vpb_single_exclusiver

unfoldable pub vm_page_in_laundry : Page → Bool
vm_page_in_laundry p = p.queue == pq_laundry
