-- ===== src/Xv6/Proc/Family.antt =====
-- How a process comes to be and is reaped: allocproc, fork and wait of proc.c keep the invariant.
use os_project.Base.{
  update_here, update_other, ℕ, ◌+◌, ◌≤◌, ◌<◌, ◌≡◌, ◌≢◌, ◌⊎◌, inl, inr, refl, sym, ap, ◌∙◌, true,
  false, ◌&&◌, none, some, update, add32, arith, Bool-cases, Option-cases,
}
use mathlib.Core.Path.{subst}
use os_project.Xv6.Proc.{
  nproc, ProcState, unused, embryo, sleeping, runnable, running, zombie, proc, Proc, Table,
  is_unused, is_zombie, is_child, put, find_from, allocproc, give_up, start, cleared, sleep, wait,
}
use os_project.Xv6.Proc.State.{free, new, living, dead, kind, find_from-some, find_from-none}
use os_project.Xv6.Proc.Inv.{Inv, step-Inv, Fits-Inv}

is_unused-kind : (x : ProcState) → is_unused x ≡ true → kind x ≡ free
is_unused-kind unused e = refl
is_unused-kind embryo e = absurd (ground (arith, e))
is_unused-kind sleeping e = absurd (ground (arith, e))
is_unused-kind runnable e = absurd (ground (arith, e))
is_unused-kind running e = absurd (ground (arith, e))
is_unused-kind zombie e = absurd (ground (arith, e))

pub is_zombie-kind : (x : ProcState) → is_zombie x ≡ true → kind x ≡ dead
is_zombie-kind zombie e = refl
is_zombie-kind unused e = absurd (ground (arith, e))
is_zombie-kind embryo e = absurd (ground (arith, e))
is_zombie-kind sleeping e = absurd (ground (arith, e))
is_zombie-kind runnable e = absurd (ground (arith, e))
is_zombie-kind running e = absurd (ground (arith, e))

pub kind-is_zombie : (x : ProcState) → kind x ≡ dead → is_zombie x ≡ true
kind-is_zombie zombie e = refl
kind-is_zombie unused e = absurd (ground (arith, e))
kind-is_zombie embryo e = absurd (ground (arith, e))
kind-is_zombie sleeping e = absurd (ground (arith, e))
kind-is_zombie runnable e = absurd (ground (arith, e))
kind-is_zombie running e = absurd (ground (arith, e))

pub is_child-parent : (me : ℕ) (p : Proc) → is_child me p ≡ true → p.parent ≡ some me
is_child-parent me p e = ground (arith, e)

pub parent-is_child : (me : ℕ) (p : Proc) → p.parent ≡ some me → is_child me p ≡ true
parent-is_child me p e = rw e (ground arith)

-- A change of a process that has no children and none afterwards.
pub childless :
    {n : ℕ} (t : Table) (i : ℕ)
    → Inv n t
    → kind (t.proc i).state ≢ living
    → (j : ℕ) → (t.proc j).parent ≢ some i
childless t i v k j e = k (v.cared j i e).0

pub start-Inv :
    {n : ℕ} (me np : ℕ) (t : Table)
    → kind (t.proc np).state ≡ new
    → kind (t.proc me).state ≡ living
    → Inv n t
    → Inv n (start me np t)
unfolding start
start-Inv me np t k l v =
    Fits-Inv t (start me np t) np (record (t.proc np) { parent = some me; state = runnable }) v
      (record {
        below = λ b. absurd (ground (arith, v.bounded np b, k));
        unowned = λ h. absurd (ground (arith, h));
        owned = λ ne e. absurd (ground (arith, e));
        cared = λ q e.
            let at : me ≡ q = ground (arith, e) in
            rw (sym at) (l, λ same. ground (arith, ap (λ x. kind (t.proc x).state) same, k, l));
        caring = λ j ne e. refl;
        root = λ e. absurd (ground (arith, ap (λ x. kind (t.proc x).state) e, k, v.root.0));
        heard = λ q d e. absurd (ground (arith, d));
        hears = λ j ne d e. refl;
        grows = λ w. omega arith;
        small = λ w h. v.small w np (λ f. ground (arith, f, k));
        distinct = λ w j ne h kj e. ne (sym (v.distinct w np j (λ f. ground (arith, f, k)) kj e));
      })
      (update_here t.proc np _) (λ j ne. update_other t.proc np _ j ne) refl refl

pub give_up-Inv :
    {n : ℕ} (np : ℕ) (t : Table) → kind (t.proc np).state ≡ new → Inv n t → Inv n (give_up np t)
unfolding give_up
give_up-Inv np t k v =
    Fits-Inv t (give_up np t) np (record (t.proc np) { state = unused }) v
      (record {
        below = λ b. refl;
        unowned = λ h. v.unowned np (inr k);
        owned = λ ne e. inl refl;
        cared = λ q e. absurd (ground (arith, e, v.unowned np (inr k)));
        caring = λ j ne e. absurd (childless t np v (λ f. ground (arith, f, k)) j e);
        root = λ e. absurd (ground (arith, ap (λ x. kind (t.proc x).state) e, k, v.root.0));
        heard = λ q d e. absurd (ground (arith, d));
        hears = λ j ne d e. refl;
        grows = λ w. omega arith;
        small = λ w h. absurd (h refl);
        distinct = λ w j ne h kj e. h refl;
      })
      (update_here t.proc np _) (λ j ne. update_other t.proc np _ j ne) refl refl

-- The table behind `allocproc` of slot `i`.
abbrev pub taken : ℕ → Table → Table
taken i t = record {
  proc = update t.proc i (record (t.proc i) { state = embryo; pid = t.nextpid });
  nextpid = add32 t.nextpid 1;
  initproc = t.initproc;
}

taken-Inv :
    {n : ℕ} (i : ℕ) (t : Table)
    → i < nproc
    → kind (t.proc i).state ≡ free
    → Inv n t
    → Inv (n + 1) (taken i t)
taken-Inv {n} i t l k v =
    step-Inv n (n + 1) t (taken i t) i (record (t.proc i) { state = embryo; pid = t.nextpid }) v
      (omega arith) (λ w. omega (arith, w, v.counted (omega (arith, w))))
      (record {
        below = λ b. absurd (omega (arith, l, b));
        unowned = λ h. v.unowned i (inl k);
        owned = λ ne e. inr refl;
        cared = λ q e. absurd (ground (arith, e, v.unowned i (inl k)));
        caring = λ j ne e. absurd (childless t i v (λ f. ground (arith, f, k)) j e);
        root = λ e. absurd (ground (arith, ap (λ x. kind (t.proc x).state) e, k, v.root.0));
        heard = λ q d e. absurd (ground (arith, d));
        hears = λ j ne d e. refl;
        grows = λ w. omega (arith, w, v.counted (omega (arith, w)));
        small = λ w h. omega (arith, w, v.counted (omega (arith, w)));
        distinct = λ w j ne h kj e. omega (arith, v.small (omega (arith, w)) j kj, e);
      })
      (update_here t.proc i _) (λ j ne. update_other t.proc i _ j ne) refl

pub allocproc-taken :
    (i : ℕ) (t : Table)
    → find_from (λ p. is_unused p.state) nproc 0 t.proc ≡ some i
    → allocproc t ≡ some (i, taken i t)
unfolding allocproc
allocproc-taken i t e = rw (e, allocproc) refl

-- What a process that `allocproc` found is in the table it leaves.
pub allocproc-Inv :
    {n : ℕ} (t : Table) (i : ℕ) (t' : Table)
    → allocproc t ≡ some (i, t')
    → Inv n t
    → Inv (n + 1) t' × (kind (t'.proc i).state ≡ new)
unfolding allocproc
allocproc-Inv {n} t i t' e v =
    elim (Option-cases (find_from (λ p. is_unused p.state) nproc 0 t.proc)) [
      | inl none_left ↦ absurd (ground (arith, e, none_left))
      | inr (j, found) ↦
          let was : ℕ × Table = (j, taken j t) in
          let is : ℕ × Table = (i, t') in
          let runs : some was ≡ some is = sym (allocproc-taken j t found) ∙ e in
          let same : was ≡ is = ap (λ o. elim o [ none ↦ was | some s ↦ s ]) runs in
          let h = find_from-some (λ p. is_unused p.state) nproc 0 t.proc j found in
          subst (λ s. Inv (n + 1) s.1 × (kind (s.1.proc s.0).state ≡ new)) same
            (
              taken-Inv j t (omega (arith, h.2)) (is_unused-kind (t.proc j).state h.0) v,
              rw (update_here t.proc j _) refl,
            )
    ]

-- A zombie whose parent reaps it.
reap-Inv :
    {n : ℕ} (i : ℕ) (t : Table)
    → kind (t.proc i).state ≡ dead
    → Inv n t
    → Inv n (put i (cleared (t.proc i)) t)
reap-Inv i t k v =
    Fits-Inv t (put i (cleared (t.proc i)) t) i (cleared (t.proc i)) v
      (record {
        below = λ b. refl;
        unowned = λ h. refl;
        owned = λ ne e. inl refl;
        cared = λ q e. absurd (ground (arith, e));
        caring = λ j ne e. absurd (childless t i v (λ f. ground (arith, f, k)) j e);
        root = λ e. absurd (ground (arith, ap (λ x. kind (t.proc x).state) e, k, v.root.0));
        heard = λ q d e. absurd (ground (arith, d));
        hears = λ j ne d e. refl;
        grows = λ w. omega arith;
        small = λ w h. absurd (h refl);
        distinct = λ w j ne h kj e. h refl;
      })
      (update_here t.proc i _) (λ j ne. update_other t.proc i _ j ne) refl refl

-- A living process that goes to sleep in `wait`, with no zombie among its children.
asleep-Inv :
    {n : ℕ} (me : ℕ) (t : Table)
    → kind (t.proc me).state ≡ living
    → ((j : ℕ) → kind (t.proc j).state ≡ dead → (t.proc j).parent ≢ some me)
    → Inv n t
    → Inv n (sleep me (proc me) t)
unfolding sleep
asleep-Inv me t k none_dead v =
    Fits-Inv t (sleep me (proc me) t) me (record (t.proc me) { chan = proc me; state = sleeping }) v
      (record {
        below = λ b. absurd (ground (arith, v.bounded me b, k));
        unowned = λ h. absurd (ground (arith, h));
        owned = λ ne e. absurd (ground (arith, v.owned me ne e, k));
        cared = λ q e. v.cared me q e;
        caring = λ j ne e. refl;
        root = λ e. (refl, rw e v.root.1);
        heard = λ q d e. absurd (ground (arith, d));
        hears = λ j ne d e. absurd (none_dead j d e);
        grows = λ w. omega arith;
        small = λ w h. v.small w me (λ f. ground (arith, f, k));
        distinct = λ w j ne h kj e. ne (sym (v.distinct w me j (λ f. ground (arith, f, k)) kj e));
      })
      (update_here t.proc me _) (λ j ne. update_other t.proc me _ j ne) refl refl

pub <-cases : (a b : ℕ) → (a < b) ⊎ (b ≤ a)
<-cases a b = ground arith

-- `wait` has looked at every zombie before it sleeps.
no_zombie :
    {n : ℕ} (me : ℕ) (t : Table)
    → find_from (λ p. is_child me p && is_zombie p.state) nproc 0 t.proc ≡ none
    → Inv n t
    → (j : ℕ) → kind (t.proc j).state ≡ dead
    → (t.proc j).parent ≢ some me
no_zombie me t e v j d q = elim (<-cases j nproc) [
  | inl l ↦
      let h : (is_child me (t.proc j) && is_zombie (t.proc j).state) ≡ false =
        find_from-none (λ p. is_child me p && is_zombie p.state) nproc 0 t.proc j e (omega arith)
          (omega (arith, l)) in
      ground (arith, h, parent-is_child me (t.proc j) q, kind-is_zombie (t.proc j).state d)
  | inr b ↦ ground (arith, v.bounded j b, d)
]

pub wait-Inv :
    {n : ℕ} (me : ℕ) (t : Table) → (t.proc me).state ≡ running → Inv n t → Inv n (wait me t).1
unfolding wait
wait-Inv me t k v =
    elim (Option-cases (find_from (λ p. is_child me p && is_zombie p.state) nproc 0 t.proc)) [
      | inr (i, e) ↦
          let h : (is_child me (t.proc i) && is_zombie (t.proc i).state) ≡ true =
            (find_from-some (λ p. is_child me p && is_zombie p.state) nproc 0 t.proc i e).0 in
          rw (e, wait) (reap-Inv i t (is_zombie-kind (t.proc i).state (ground (arith, h))) v)
      | inl e ↦ elim (Option-cases (find_from (is_child me) nproc 0 t.proc)) [
        | inl none_at_all ↦ rw (e, none_at_all, wait) v
        | inr (i, e') ↦ elim (Bool-cases (t.proc me).killed) [
          | inl killed ↦ rw (e, e', killed, wait) v
          | inr not ↦ rw (e, e', not, wait) (asleep-Inv me t (rw k refl) (no_zombie me t e v) v)
        ]
      ]
    ]
