-- ===== src/Xv6/Proc/Adopt.antt =====
-- A child is passed to init: a round of the loop of exit of proc.c.
use os_project.Base.{
  update_here, update_other, ℕ, ◌≡◌, ◌≢◌, inl, inr, refl, sym, ap, ◌∙◌, false, ◌&&◌, some,
  if◌then◌else◌, arith, ℕ-cases,
}
use os_project.Xv6.Proc.{
  ProcState, unused, embryo, sleeping, runnable, running, zombie, proc, Proc, Table, is_sleeping,
  is_zombie, same_chan, put, wake, wakeup1,
}
use os_project.Xv6.Proc.State.{dead, kind, waits}
use os_project.Xv6.Proc.Inv.{Inv, Fits, Fits-Inv, Calm}
use os_project.Xv6.Proc.Family.{kind-is_zombie}
use os_project.Xv6.Proc.Steps.{wakeup1-Inv}

-- Nobody whom `wakeup` called still waits.
pub woken : (q : ℕ) (p : Proc) → waits q (wake (proc q) p) ≡ false
woken q p = woken_state p.state
  where
    woken_state :
        (x : ProcState)
        → (is_sleeping (if is_sleeping x && same_chan p.chan (proc q) then runnable else x)
            && same_chan p.chan (proc q))
          ≡ false
    woken_state unused = refl
    woken_state embryo = refl
    woken_state sleeping = ground arith
    woken_state runnable = refl
    woken_state running = refl
    woken_state zombie = refl

adopt-Fits :
    {n : ℕ} (me i : ℕ) (t : Table)
    → (t.proc i).parent ≡ some me
    → (kind (t.proc i).state ≡ dead → waits t.initproc (t.proc t.initproc) ≡ false)
    → Inv n t
    → Fits n t i (record (t.proc i) { parent = some t.initproc }) t.nextpid
adopt-Fits me i t e awake v = record {
  below = λ b. v.bounded i b;
  unowned = λ h. absurd (ground (arith, v.unowned i h, e));
  owned = λ ne x. absurd (ground (arith, x));
  cared = λ q x.
      let at : t.initproc ≡ q = ground (arith, x) in
      rw (sym at) (v.root.0, λ same. ground (arith, ap (λ j. (t.proc j).parent) same, v.root.1, e));
  caring = λ j ne x. (v.cared j i x).0;
  root = λ at. absurd (ground (arith, ap (λ j. (t.proc j).parent) at, v.root.1, e));
  heard = λ q d x. let at : t.initproc ≡ q = ground (arith, x) in rw (sym at) (awake d);
  hears = λ j ne d x. v.heard j i d x;
  grows = λ w. omega arith;
  small = λ w h. v.small w i h;
  distinct = λ w j ne h kj x. ne (sym (v.distinct w i j h kj x));
}

-- `exit` of `me` so far: nobody's kind has changed, nobody has begun to wait, its parent is the same.
pub record Passing (me : ℕ) (t t' : Table) : Type 0 where
  pub kinds : (i : ℕ) → kind (t'.proc i).state ≡ kind (t.proc i).state
  pub waiting : (i : ℕ) → waits i (t.proc i) ≡ false → waits i (t'.proc i) ≡ false
  pub mine : (t'.proc me).parent ≡ (t.proc me).parent
  pub init : t'.initproc ≡ t.initproc

pub Passing-refl : (me : ℕ) (t : Table) → Passing me t t
Passing-refl me t = record { kinds = λ i. refl; waiting = λ i e. e; mine = refl; init = refl }

pub Passing-trans : (me : ℕ) (a b c : Table) → Passing me a b → Passing me b c → Passing me a c
Passing-trans me a b c x y = record {
  kinds = λ i. y.kinds i ∙ x.kinds i;
  waiting = λ i e. y.waiting i (x.waiting i e);
  mine = y.mine ∙ x.mine;
  init = y.init ∙ x.init;
}

pub Calm-Passing : (me : ℕ) (a b : Table) → Calm a b → Passing me a b
Calm-Passing me a b c = record {
  kinds = c.kinds;
  waiting = c.waiting;
  mine = c.parents me;
  init = c.init;
}

-- A child is given to init.
abbrev pub adopt : ℕ → Table → Table
adopt i t = put i (record (t.proc i) { parent = some t.initproc }) t

pub adopt-parent : (i : ℕ) (t : Table) → ((adopt i t).proc i).parent ≡ some t.initproc
adopt-parent i t = rw (update_here t.proc i _) refl

pub adopt-Passing : (me i : ℕ) (t : Table) → i ≢ me → Passing me t (adopt i t)
adopt-Passing me i t ne = record {
  kinds = λ j. elim (ℕ-cases j i) [
    | inl e ↦ rw (e, update_here t.proc i _) refl
    | inr out ↦ rw (update_other t.proc i _ j out) refl
  ];
  waiting = λ j h. elim (ℕ-cases j i) [
    | inl e ↦ rw (e, update_here t.proc i _) (rw (sym e) h)
    | inr out ↦ rw (update_other t.proc i _ j out) h
  ];
  mine = rw (update_other t.proc i _ me (λ e. ne (sym e))) refl;
  init = refl;
}

pub adopt-Inv :
    {n : ℕ} (me i : ℕ) (t : Table)
    → (t.proc i).parent ≡ some me
    → is_zombie (t.proc i).state ≡ false
    → Inv n t
    → Inv n (adopt i t)
adopt-Inv me i t e z v =
    Fits-Inv t (adopt i t) i (record (t.proc i) { parent = some t.initproc }) v
      (adopt-Fits me i t e (λ d. absurd (ground (arith, z, kind-is_zombie (t.proc i).state d))) v)
      (update_here t.proc i _) (λ j ne. update_other t.proc i _ j ne) refl refl

-- A zombie child: init is woken.
pub adopt_zombie-Inv :
    {n : ℕ} (me i : ℕ) (t : Table)
    → (t.proc i).parent ≡ some me
    → Inv n t
    → Inv n (wakeup1 (proc t.initproc) (adopt i t))
unfolding wakeup1
adopt_zombie-Inv me i t e v =
    let init = t.initproc in
    let t₁ = wakeup1 (proc init) t in
    Fits-Inv t₁ (wakeup1 (proc init) (adopt i t)) i (record (t₁.proc i) { parent = some init })
      (wakeup1-Inv (proc init) t v)
      (adopt-Fits me i t₁ e (λ d. woken init (t.proc init)) (wakeup1-Inv (proc init) t v))
      (ap (wake (proc init)) (update_here t.proc i _))
      (λ j ne. ap (wake (proc init)) (update_other t.proc i _ j ne)) refl refl
