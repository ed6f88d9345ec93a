-- ===== src/Xv6/Proc/Steps.antt =====
-- The operations of proc.c and the invariant of the process table.
use os_project.Base.{
  update_here, update_other, ℕ, ◌≡◌, inl, inr, refl, true, false, ◌&&◌, ◌==◌, if◌then◌else◌, arith,
  ℕ-cases, Option-cases,
}
use os_project.Xv6.Proc.{
  nproc, ProcState, unused, embryo, sleeping, runnable, running, zombie, Chan, null, other, Proc,
  Table, is_sleeping, same_chan, put, find_from, wake, wakeup1, sleep, schedule, yield, kill,
}
use os_project.Xv6.Proc.State.{kind, waits}
use os_project.Xv6.Proc.Inv.{Inv, Calm, Calm-Inv}

wake-kind : (c : Chan) (p : Proc) → kind (wake c p).state ≡ kind p.state
wake-kind c p = state_kind p.state
  where
    state_kind :
        (x : ProcState)
        → kind (if is_sleeping x && same_chan p.chan c then runnable else x) ≡ kind x
    state_kind unused = refl
    state_kind embryo = refl
    state_kind sleeping = ground arith
    state_kind runnable = refl
    state_kind running = refl
    state_kind zombie = refl

pub wakeup1-Calm : (c : Chan) (t : Table) → Calm t (wakeup1 c t)
unfolding wakeup1
wakeup1-Calm c t = record {
  kinds = λ i. wake-kind c (t.proc i);
  parents = λ i. refl;
  pids = λ i. refl;
  waiting = λ i e. ground (arith, e);
  next = refl;
  init = refl;
}

-- A fact about every process behind a change of one.
put-split :
    (P : ℕ → Proc → Proc → Type 0) (i : ℕ) (p : Proc) (t : Table)
    → P i p (t.proc i)
    → ((j : ℕ) (x : Proc) → P j x x)
    → (j : ℕ) → P j ((put i p t).proc j) (t.proc j)
put-split P i p t at others j = elim (ℕ-cases j i) [
  | inl e ↦ rw (e, update_here t.proc i p) at
  | inr ne ↦ rw (update_other t.proc i p j ne) (others j (t.proc j))
]

-- A change of the state and the channel of one process.
put-Calm :
    (i : ℕ) (p : Proc) (t : Table)
    → kind p.state ≡ kind (t.proc i).state
    → p.parent ≡ (t.proc i).parent
    → p.pid ≡ (t.proc i).pid
    → (waits i (t.proc i) ≡ false → waits i p ≡ false)
    → Calm t (put i p t)
put-Calm i p t k e d w = record {
  kinds = put-split (λ j x y. kind x.state ≡ kind y.state) i p t k (λ j x. refl);
  parents = put-split (λ j x y. x.parent ≡ y.parent) i p t e (λ j x. refl);
  pids = put-split (λ j x y. x.pid ≡ y.pid) i p t d (λ j x. refl);
  waiting = put-split (λ j x y. waits j y ≡ false → waits j x ≡ false) i p t w (λ j x h. h);
  next = refl;
  init = refl;
}

pub schedule-Inv :
    {n : ℕ} (i : ℕ) (t : Table) → (t.proc i).state ≡ runnable → Inv n t → Inv n (schedule i t)
unfolding schedule
schedule-Inv i t e v =
    Calm-Inv t (schedule i t)
      (put-Calm i (record (t.proc i) { state = running; chan = null }) t (rw e refl) refl refl
        (λ h. refl))
      v

pub yield-Inv :
    {n : ℕ} (me : ℕ) (t : Table) → (t.proc me).state ≡ running → Inv n t → Inv n (yield me t)
unfolding yield
yield-Inv me t e v =
    Calm-Inv t (yield me t)
      (put-Calm me (record (t.proc me) { state = runnable }) t (rw e refl) refl refl (λ h. refl)) v

pub wakeup1-Inv : {n : ℕ} (c : Chan) (t : Table) → Inv n t → Inv n (wakeup1 c t)
wakeup1-Inv c t v = Calm-Inv t (wakeup1 c t) (wakeup1-Calm c t) v

pub sleep-Inv :
    {n : ℕ} (me a : ℕ) (t : Table)
    → (t.proc me).state ≡ running
    → Inv n t
    → Inv n (sleep me (other a) t)
unfolding sleep
sleep-Inv me a t e v =
    Calm-Inv t (sleep me (other a) t)
      (put-Calm me (record (t.proc me) { chan = other a; state = sleeping }) t (rw e refl) refl refl
        (λ h. refl))
      v

-- Nobody's pid is looked at: `kill` may mark a process that is not in use, and changes nothing else.
kill-Calm :
    (i : ℕ) (t : Table)
    → Calm t (
        put i
          (record (t.proc i) {
            killed = true;
            state = if is_sleeping (t.proc i).state then runnable else (t.proc i).state;
          })
          t)
kill-Calm i t = put-Calm i _ t (woken (t.proc i).state) refl refl (λ h. ground (arith, h))
  where
    woken : (x : ProcState) → kind (if is_sleeping x then runnable else x) ≡ kind x
    woken unused = refl
    woken embryo = refl
    woken sleeping = refl
    woken runnable = refl
    woken running = refl
    woken zombie = refl

pub kill-Inv : {n : ℕ} (pid : ℕ) (t : Table) → Inv n t → Inv n (kill pid t).1
unfolding kill
kill-Inv pid t v = elim (Option-cases (find_from (λ p. p.pid == pid) nproc 0 t.proc)) [
  | inl e ↦ rw (e, kill) v
  | inr (i, e) ↦ rw (e, kill) (Calm-Inv t _ (kill-Calm i t) v)
]
