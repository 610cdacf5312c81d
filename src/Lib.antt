-- ===== src/Lib.antt =====
-- Verification of the scheduler, the page replacement and the file system of this repository.
--
-- Program. asgn2 changes the run queues of FreeBSD's ULE scheduler: threads of users other than root
-- that fall into the timeshare priorities go to a lottery queue, which draws the thread to run by
-- tickets. asgn3 makes FreeBSD's page replacement first in, first out: pages for the active queue go
-- to the inactive queue, with a birthday, and the page daemon takes them from its head. asgn4 is a
-- file system of one directory in a disk image, served through FUSE. asgn1 is a shell.
--
-- Files and what they model:
--   Prelude         tests on numbers, lists, whole numbers and arrays that the other files share.
--   Runq            asgn2/sys/runq.h and the run queue of asgn2/kern/kern_switch.c: runq_init,
--                   runq_setbit, runq_clrbit, runq_findbit, runq_findbit_from, runq_add,
--                   runq_add_pri, runq_check, runq_choose, runq_choose_from, runq_choose_fuzz,
--                   runq_remove, runq_remove_idx, lottery_q_add and lottery_q_remove under these
--                   names. A Runq holds the status words and the queues as lists of threads; a
--                   thread is a number, and a Store gives its fields.
--   Lottery         lottery_q_choose of the same file, its two loops being total_loop and draw_loop.
--   Interact        sched_interact_score, sched_interact_update, sched_interact_fork, sched_priority
--                   and sched_user_prio of asgn2/kern/sched_ule.c, with the macros they use.
--   Tdq             struct tdq of the same file and tdq_runq_add, tdq_runq_rem, tdq_load_add,
--                   tdq_load_rem, tdq_slice, tdq_setlowpri (set_lowpri), tdq_choose, tdq_setup,
--                   tdq_add, sched_shouldpreempt, and the turn of the calendar in sched_clock
--                   (rotate). It calls Runq and Lottery. Places and Removes say where a thread is
--                   put and taken off, Linked that the threads that wait, and no others, stand where
--                   their fields say, and Reached runs sequences of calls.
--   Steal           runq_steal, runq_steal_from and tdq_steal of the same file, which take a thread
--                   from a Tdq for another processor.
--   Smp             the placement of threads in the same file: sched_random (next_random, random_of),
--                   cpu_search, sched_lowest and sched_highest over the tree of processor groups
--                   (CpuGroup), with Search and Finds on what they find; Pick has sched_pickcpu, Move
--                   sched_rem, tdq_move, tdq_notify and sched_balance_pair, Idle tdq_idled and
--                   tdq_trysteal, and Balance sched_balance_group and sched_balance. It calls Tdq
--                   and Steal.
--   Sched           what the rest of the kernel calls in the same file: Ticks (sched_pctcpu_update,
--                   sched_pctcpu), Clock (sched_clock), Choose (sched_choose, and choosethread of
--                   asgn2/kern/kern_switch.c), Critical (critical_enter and critical_exit of
--                   kern_switch.c, and sched_preempt, with the mi_switch of the kernel as
--                   the parameter Switcher), Add (sched_add, sched_setpreempt,
--                   sched_affinity), Prio (sched_thread_priority, sched_lend_prio, sched_unlend_prio,
--                   sched_prio, sched_lend_user_prio, sched_nice, sched_userret), Life (sched_fork,
--                   sched_exit_thread, sched_sleep, sched_wakeup) and Switch (sched_switch and
--                   sched_switch_migrate, up to cpu_switch). It calls Interact, Tdq and Smp.
--   Vm              asgn3/vm/vm_page.h, vm_page.c and vm_pageout.c: the pages and page queues (Memory).
--                   Queue (vm_page_enqueue, _dequeue, _requeue, _activate, _deactivate, _launder),
--                   Free (vm_page_remove, _free_prep, _free_phys, _free_wakeup, _free_toq, _hold,
--                   _unhold), Wire (vm_page_wire, _unwire, _try_to_free, _advise,
--                   _readahead_finish), Isqrt (isqrt) and Pageout (the two loops of vm_pageout_scan:
--                   count_loop, whose line is new_page_line, and scan_loop). Valid says what holds
--                   of the queues at all times; Steps to Freed show that each function keeps it,
--                   and Runs that any sequence of them does. Busy has the busy word of a page
--                   (vm_page_trysbusy, _tryxbusy, _sunbusy, _xunbusy, _busy_downgrade, _busy_sleep,
--                   _flash) and Busy/Abstract the lock that it implements; Oom has
--                   vm_pageout_mightbe_oom; Bits has the valid and dirty bits (vm_page_bits,
--                   _set_valid_range, _set_validclean, _zero_invalid, _is_valid) of pages of 4096
--                   bytes.
--   Aofs            asgn4/aofs.h and asgn4/aofs.c: Bitmap (bit_at, find_free_bit, set_bit,
--                   clear_bit), Disk (the image and its blocks), Blocks (clear_block,
--                   allocate_block, deallocate_block, delete_chain, init_fs), Files
--                   (aofs_find_file_head, aofs_create_file, aofs_delete_file), Write, Read and
--                   Truncate (the functions of these names).
--   Fuse            the FUSE callbacks of asgn4/run_fs.c, which call Aofs.
--   Shell           what main of asgn1/argshell.c does with a line (main_line) and its loop that takes
--                   the line apart (split_loop). The state of the loop, args and i, is the list of
--                   the words before i and that of the rest.
-- In each part but Fuse the files below it hold the properties, and its Tests the concrete runs.
--
-- State and errors. A call of the scheduler takes the store and the queues and returns new ones,
-- or none if an assertion that is modelled (such as that of tdq_runq_rem) or the lottery
-- fails; no other processor acts during the call. A call of the file system takes the image and
-- ends with a value and a new image (done), by an access outside the blocks of the image or a name
-- too long for filename[256] (outside), or out of fuel (spins). Opening, reading and writing the
-- image file are taken to succeed, except that the callbacks hand on a negative descriptor.
--
-- A call of the page queues takes the memory and returns a new one, or none if it panics or a
-- KASSERT fails; no other thread runs during the call, and a try of a lock succeeds.
--
-- Parameters. Kernel is what the physical allocator and the pmap answer after the calls made to
-- them so far, which Memory records. Machine is the kernel's machine/runq.h, with the documented
-- meaning of RQB_FFS; Config and Settings are priority ranges and tunables of the kernel;
-- Environment is the time of the call, what lies on the stack in a block variable that was not
-- written, and what a read of block -1 makes of the superblock's bytes. random() is an argument.
-- Board and Host hold what a call of the scheduler reads of processors, threads and tunables and
-- does not change.
--
-- Bounds and fuel. Unsigned counters wrap where the code's type does (u_int, u_char, size_t).
-- TAILQ_REMOVE of a thread that is not on the list is not described: the model leaves the list,
-- and the results on removals are about threads that stand on it. Status bits are for the 64
-- indices below RQ_NQS, which the results show the indices to be. Ticket sums, the number drawn
-- less the tickets, loads, also times 256, sizes and offsets are taken to fit their signed types;
-- ts_ticks does for hz below 2^17. ticks, ts_ltick and ts_ftick are the 32 bits of an int that
-- goes round. CPU_FFS is used to search a set of processors, from the lowest number up. The loops
-- of sched_balance_group have (mp_maxid + 1) * (mp_maxid + 3) + 1 rounds, as each takes a
-- processor from one of two sets, those of tdq_idled one for each group and each processor, those
-- of tdq_trysteal one for each group. The loop of aofs_write_file has size + offset + 1 rounds, as
-- each round writes a byte or lowers the offset; delete_chain has two rounds more than there are
-- blocks, which is enough for a chain of distinct blocks; the search for the last block in
-- aofs_truncate_file has one round more. The loops of isqrt have 17 rounds, one for each power of
-- four below 2 ^ 32 and one to stop; the scan of the inactive queue has pq_cnt, as in the code.
--
-- Not modelled: forking, redirections and the lexer of the shell; locks, assertions, tracing and
-- printing (but for the line of lottery_q_choose); the loop of the idle thread, sched_throw and
-- the binding of threads to processors; read_fs, write_fs and the tools of asgn4; the file
-- asgn2/kern/#sched_ule.c#, an editor's copy; of asgn3 allocation, the objects' trees,
-- vm_page_set_invalid, _clear_dirty, the laundry thread and the killing of a process, which are as
-- in FreeBSD.
pub mod Prelude
pub mod Runq
pub mod Lottery
pub mod Interact
pub mod Tdq
pub mod Vm
pub mod Aofs
pub mod Steal
pub mod Smp
pub mod Sched
pub mod Fuse
pub mod Shell
