-- ===== src/Xv6/Proc/Inv.antt =====
-- The invariant of the process table of proc.c, and a change of one process.
use os_project.Base.{
  ℕ, ◌+◌, ◌^◌, ◌≤◌, ◌<◌, ◌≡◌, ◌≢◌, ◌⊎◌, inl, inr, refl, sym, ◌∙◌, false, none, some, arith, ℕ-cases,
}
use os_project.Xv6.Proc.{nproc, Proc, Table}
use os_project.Xv6.Proc.State.{free, new, living, dead, kind, waits}

-- The counter of pids has not wrapped around after `n` pids.
abbrev pub IsFew : ℕ → Type 0
IsFew n = n + 1 < 2 ^ 31

-- After `n` pids have been given out.
pub record Inv (n : ℕ) (t : Table) : Type 0 where
  pub bounded : (i : ℕ) → nproc ≤ i → kind (t.proc i).state ≡ free
  -- A slot that is not in use has no parent; a process other than init has one.
  pub unowned :
      (i : ℕ)
      → (kind (t.proc i).state ≡ free) ⊎ (kind (t.proc i).state ≡ new)
      → (t.proc i).parent ≡ none
  pub owned :
      (i : ℕ)
      → i ≢ t.initproc
      → (t.proc i).parent ≡ none
      → (kind (t.proc i).state ≡ free) ⊎ (kind (t.proc i).state ≡ new)
  pub cared : (i q : ℕ) → (t.proc i).parent ≡ some q → (kind (t.proc q).state ≡ living) × (q ≢ i)
  pub root : (kind (t.proc t.initproc).state ≡ living) × ((t.proc t.initproc).parent ≡ none)
  -- No parent of a zombie sleeps in `wait`.
  pub heard :
      (i q : ℕ)
      → kind (t.proc i).state ≡ dead
      → (t.proc i).parent ≡ some q
      → waits q (t.proc q) ≡ false
  pub counted : IsFew n → t.nextpid ≡ n + 1
  pub small : IsFew n → (i : ℕ) → kind (t.proc i).state ≢ free → (t.proc i).pid < t.nextpid
  pub distinct :
      IsFew n
      → (i j : ℕ) → kind (t.proc i).state ≢ free
      → kind (t.proc j).state ≢ free
      → (t.proc i).pid ≡ (t.proc j).pid
      → i ≡ j

-- What a change of process `i` needs; `p` is what it becomes, and `n` pids have been given out then.
pub record Fits (n : ℕ) (t : Table) (i : ℕ) (p : Proc) (nextpid : ℕ) : Type 0 where
  pub below : nproc ≤ i → kind p.state ≡ free
  pub unowned : (kind p.state ≡ free) ⊎ (kind p.state ≡ new) → p.parent ≡ none
  pub owned : i ≢ t.initproc → p.parent ≡ none → (kind p.state ≡ free) ⊎ (kind p.state ≡ new)
  pub cared : (q : ℕ) → p.parent ≡ some q → (kind (t.proc q).state ≡ living) × (q ≢ i)
  pub caring : (j : ℕ) → j ≢ i → (t.proc j).parent ≡ some i → kind p.state ≡ living
  pub root : i ≡ t.initproc → (kind p.state ≡ living) × (p.parent ≡ none)
  pub heard : (q : ℕ) → kind p.state ≡ dead → p.parent ≡ some q → waits q (t.proc q) ≡ false
  pub hears :
      (j : ℕ)
      → j ≢ i
      → kind (t.proc j).state ≡ dead
      → (t.proc j).parent ≡ some i
      → waits i p ≡ false
  pub grows : IsFew n → t.nextpid ≤ nextpid
  pub small : IsFew n → kind p.state ≢ free → p.pid < nextpid
  pub distinct :
      IsFew n
      → (j : ℕ) → j ≢ i
      → kind p.state ≢ free
      → kind (t.proc j).state ≢ free
      → p.pid ≢ (t.proc j).pid

module _ (n n' : ℕ) (t t' : Table) (i : ℕ) (p : Proc) (v : Inv n t) (later : n ≤ n')
    (counts : IsFew n' → t'.nextpid ≡ n' + 1) (fits : Fits n' t i p t'.nextpid)
    (here : t'.proc i ≡ p) (there : (j : ℕ) → j ≢ i → t'.proc j ≡ t.proc j)
    (same : t'.initproc ≡ t.initproc) where
  -- A fact about every process, by whether it is the changed one.
  split :
      (P : ℕ → Proc → Type 0)
      → P i p
      → ((j : ℕ) → j ≢ i → P j (t.proc j))
      → (j : ℕ) → P j (t'.proc j)
  split P at others j = elim (ℕ-cases j i) [
    | inl e ↦ rw (e, here) at
    | inr ne ↦ rw (there j ne) (others j ne)
  ]

  living_still :
      (j q : ℕ) → (t.proc j).parent ≡ some q → j ≢ i → (kind (t'.proc q).state ≡ living) × (q ≢ j)
  living_still j q e ne = elim (ℕ-cases q i) [
    | inl at ↦ (rw (at, here) (fits.caring j ne (rw (sym at) e)), (v.cared j q e).1)
    | inr out ↦ (rw (there q out) (v.cared j q e).0, (v.cared j q e).1)
  ]

  changed_cared :
      (j q : ℕ) → (t'.proc j).parent ≡ some q → (kind (t'.proc q).state ≡ living) × (q ≢ j)
  changed_cared j q =
      split (λ j x. x.parent ≡ some q → (kind (t'.proc q).state ≡ living) × (q ≢ j))
        (λ e. (rw (there q (fits.cared q e).1) (fits.cared q e).0, (fits.cared q e).1))
        (λ j ne e. living_still j q e ne) j

  changed_heard :
      (j q : ℕ)
      → kind (t'.proc j).state ≡ dead
      → (t'.proc j).parent ≡ some q
      → waits q (t'.proc q) ≡ false
  changed_heard j q =
      split (λ j x. kind x.state ≡ dead → x.parent ≡ some q → waits q (t'.proc q) ≡ false)
        (λ d e. rw (there q (fits.cared q e).1) (fits.heard q d e))
        (λ j ne d e. elim (ℕ-cases q i) [
          | inl at ↦ rw (at, here) (fits.hears j ne d (rw (sym at) e))
          | inr out ↦ rw (there q out) (v.heard j q d e)
        ])
        j

  changed_distinct :
      IsFew n'
      → (a b : ℕ) → kind (t'.proc a).state ≢ free
      → kind (t'.proc b).state ≢ free
      → (t'.proc a).pid ≡ (t'.proc b).pid
      → a ≡ b
  changed_distinct w a b =
      split
        (λ a x.
          kind x.state ≢ free → kind (t'.proc b).state ≢ free → x.pid ≡ (t'.proc b).pid → a ≡ b)
        (split (λ b x. kind p.state ≢ free → kind x.state ≢ free → p.pid ≡ x.pid → i ≡ b)
          (λ kp kq e. refl) (λ j ne kp kj e. absurd (fits.distinct w j ne kp kj e)) b)
        (λ a ne.
          split
            (λ b x.
              kind (t.proc a).state ≢ free → kind x.state ≢ free → (t.proc a).pid ≡ x.pid → a ≡ b)
            (λ ka kp e. absurd (fits.distinct w a ne kp ka (sym e)))
            (λ j ne' ka kj e. v.distinct (omega (arith, w, later)) a j ka kj e) b)
        a

  pub step-Inv : Inv n' t'
  step-Inv = record {
    bounded = split (λ j x. nproc ≤ j → kind x.state ≡ free) fits.below (λ j ne. v.bounded j);
    unowned =
        split (λ j x. (kind x.state ≡ free) ⊎ (kind x.state ≡ new) → x.parent ≡ none) fits.unowned
          (λ j ne. v.unowned j);
    owned = rw same (
        split
          (λ j x. j ≢ t.initproc → x.parent ≡ none → (kind x.state ≡ free) ⊎ (kind x.state ≡ new))
          fits.owned (λ j ne. v.owned j));
    cared = changed_cared;
    root = rw same (
        split (λ j x. j ≡ t.initproc → (kind x.state ≡ living) × (x.parent ≡ none)) fits.root
          (λ j ne e. rw e v.root) t.initproc refl);
    heard = changed_heard;
    counted = counts;
    small = λ w.
        split (λ j x. kind x.state ≢ free → x.pid < t'.nextpid) (fits.small w)
          (λ j ne k. omega (arith, v.small (omega (arith, w, later)) j k, fits.grows w));
    distinct = changed_distinct;
  }

-- A change that gives out no pid.
pub Fits-Inv :
    {n : ℕ} (t t' : Table) (i : ℕ) (p : Proc)
    → Inv n t
    → Fits n t i p t'.nextpid
    → t'.proc i ≡ p
    → ((j : ℕ) → j ≢ i → t'.proc j ≡ t.proc j)
    → t'.initproc ≡ t.initproc
    → t'.nextpid ≡ t.nextpid
    → Inv n t'
Fits-Inv {n} t t' i p v fits here there same next =
    step-Inv n n t t' i p v (omega arith) (λ w. next ∙ v.counted w) fits here there same

-- A change that leaves the kinds, the parents and the pids, and lets nobody wait.
pub record Calm (t t' : Table) : Type 0 where
  pub kinds : (i : ℕ) → kind (t'.proc i).state ≡ kind (t.proc i).state
  pub parents : (i : ℕ) → (t'.proc i).parent ≡ (t.proc i).parent
  pub pids : (i : ℕ) → (t'.proc i).pid ≡ (t.proc i).pid
  pub waiting : (i : ℕ) → waits i (t.proc i) ≡ false → waits i (t'.proc i) ≡ false
  pub next : t'.nextpid ≡ t.nextpid
  pub init : t'.initproc ≡ t.initproc

pub Calm-Inv : {n : ℕ} (t t' : Table) → Calm t t' → Inv n t → Inv n t'
Calm-Inv t t' c v = record {
  bounded = λ i l. c.kinds i ∙ v.bounded i l;
  unowned = λ i k. c.parents i ∙ v.unowned i (rw (sym (c.kinds i)) k);
  owned = λ i ne e. rw (c.kinds i) (v.owned i (λ at. ne (at ∙ sym c.init)) (sym (c.parents i) ∙ e));
  cared = λ i q e. let h = v.cared i q (sym (c.parents i) ∙ e) in (c.kinds q ∙ h.0, h.1);
  root = rw (c.init, c.kinds t.initproc, c.parents t.initproc) v.root;
  heard = λ i q k e. c.waiting q (v.heard i q (sym (c.kinds i) ∙ k) (sym (c.parents i) ∙ e));
  counted = λ w. c.next ∙ v.counted w;
  small = λ w i k. rw (c.pids i, c.next) (v.small w i (λ f. k (c.kinds i ∙ f)));
  distinct = λ w i j ki kj e.
      v.distinct w i j (λ f. ki (c.kinds i ∙ f)) (λ f. kj (c.kinds j ∙ f))
        (sym (c.pids i) ∙ e ∙ c.pids j);
}
