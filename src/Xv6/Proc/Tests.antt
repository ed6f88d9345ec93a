-- ===== src/Xv6/Proc/Tests.antt =====
-- Processes of proc.c on concrete tables: a run, and the theorems at inputs that meet their hypotheses.
use os_project.Base.{ℕ, ◌≡◌, ◌≢◌, refl, true, false, some, arith}
use os_project.Xv6.Proc.{
  runnable, running, sleeping, Table, is_zombie, put, find_from, allocproc, start, wakeup1, cleared,
  sleep, schedule, kill, wait, pass_on, pass_from, exit, userinit, fork, reaped,
}
use os_project.Xv6.Proc.State.{living, kind, waits}
use os_project.Xv6.Proc.Family.{taken}
use os_project.Xv6.Proc.Leave.{left}
use os_project.Xv6.Proc.Runs.{
  Reach, booted, next, alloc, forked, exited, waited, scheduled, zeroed, no_proc, no_lost_zombie,
  pids_differ,
}
use os_project.Xv6.Proc.Reaping.{exit-wait, kill-fork}

-- init has forked a child that it waits for, and which runs.
abbrev child : Table
child =
    schedule 1
      (wait 0 (
        start 0 1 (
          taken 1 (
            schedule 0 (
              put 0 (record no_proc { state = runnable; pid = 1 })
                (record (taken 0 zeroed) { initproc = 0 })))))).1

booted_child : Reach 2 child
unfolding userinit allocproc find_from schedule start wait sleep
booted_child =
    next
      (next
        (next
          (alloc {i = 1}
            {t' = taken 1 (
              schedule 0 (
                put 0 (record no_proc { state = runnable; pid = 1 })
                  (record (taken 0 zeroed) { initproc = 0 })))}
            (next (booted refl) (scheduled 0 _ refl)) refl)
          (forked 0 1 _ refl refl))
        (waited 0 _ refl))
      (scheduled 1 _ refl)

child_state :
    ((child.proc 0).state ≡ sleeping)
    × ((child.proc 1).state ≡ running)
    × ((child.proc 1).parent ≡ some 0)
unfolding find_from schedule start wait sleep
child_state = (refl, refl, refl)

exit-child : exit 1 child ≡ some (left 1 child)
unfolding exit find_from schedule start wait sleep
exit-child = refl

-- The parent is awake and reaps the child.
child_reaped : (wait 0 (left 1 child)).0 ≡ reaped 2
unfolding find_from schedule start wait sleep pass_from pass_on wakeup1
child_reaped = refl

no_lost_zombie_example :
    (kind ((left 1 child).proc (left 1 child).initproc).state ≡ living)
    × ((q : ℕ) × (((left 1 child).proc 1).parent ≡ some q)
        × (kind ((left 1 child).proc q).state ≡ living)
        × (waits q ((left 1 child).proc q) ≡ false))
no_lost_zombie_example =
    no_lost_zombie (left 1 child) 1 (next booted_child (exited 1 child_state.1 exit-child)) refl

pids_differ_example : (child.proc 0).pid ≢ (child.proc 1).pid
unfolding find_from schedule start wait sleep
pids_differ_example = pids_differ child 0 1 (omega arith) booted_child refl refl (omega arith)

exit-wait_example :
    (i : ℕ) × (((left 1 child).proc i).parent ≡ some 0)
    × (is_zombie ((left 1 child).proc i).state ≡ true)
    × (wait 0 (left 1 child) ≡ (
      reaped ((left 1 child).proc i).pid,
      put i (cleared ((left 1 child).proc i)) (left 1 child),
    ))
exit-wait_example =
    exit-wait child (left 1 child) 1 0 booted_child child_state.1 child_state.2 exit-child

-- `kill 0` while init and its child are all there is.
kill-fork_example :
    ((kill 0 child).0 ≡ true)
    × ((fork true true 1 (kill 0 child).1).0 ≡ some child.nextpid)
    × ((((fork true true 1 (kill 0 child).1).1).proc 2).killed ≡ true)
unfolding find_from schedule start wait sleep
kill-fork_example = kill-fork 0 1 2 child refl refl
