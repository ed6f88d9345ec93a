-- ===== src/Xv6/Proc/Leave.antt =====
-- How a process ends: exit of proc.c, with the loop that passes its children to init.
use os_project.Base.{
  update_here, update_other, ℕ, zero, suc, ◌+◌, ◌<◌, ◌≡◌, ◌≢◌, ◌⊎◌, inl, inr, refl, sym, ap, ◌∙◌,
  false, none, some, ◌==◌, arith, Bool-cases, ℕ-cases,
}
use mathlib.Core.Path.{subst}
use os_project.Xv6.Proc.{
  nproc, running, zombie, proc, Table, is_zombie, parent_chan, is_child, put, wake, wakeup1,
  pass_on, pass_from, exit,
}
use os_project.Xv6.Proc.State.{living, kind, waits}
use os_project.Xv6.Proc.Inv.{Inv, Fits-Inv}
use os_project.Xv6.Proc.Family.{<-cases, is_child-parent, parent-is_child}
use os_project.Xv6.Proc.Steps.{wakeup1-Inv, wakeup1-Calm}
use os_project.Xv6.Proc.Adopt.{
  woken, Passing, Passing-refl, Passing-trans, Calm-Passing, adopt, adopt-parent, adopt-Passing,
  adopt-Inv, adopt_zombie-Inv,
}

pass_on-case :
    (me i : ℕ) (t : Table)
    → ((t.proc i).parent ≢ some me) × (pass_on me i t ≡ t)
      ⊎ ((t.proc i).parent ≡ some me)
        × (is_zombie (t.proc i).state ≡ false)
        × (pass_on me i t ≡ adopt i t)
      ⊎ ((t.proc i).parent ≡ some me) × (pass_on me i t ≡ wakeup1 (proc t.initproc) (adopt i t))
unfolding pass_on
pass_on-case me i t = elim (Bool-cases (is_child me (t.proc i))) [
  | inr other_parent ↦ inl (
    λ e. ground (arith, other_parent, parent-is_child me (t.proc i) e),
    rw (other_parent, pass_on) refl,
  )
  | inl child ↦ elim (Bool-cases (is_zombie (t.proc i).state)) [
    | inr lives ↦
        inr (inl (is_child-parent me (t.proc i) child, lives, rw (child, lives, pass_on) refl))
    | inl dies ↦ inr (inr (is_child-parent me (t.proc i) child, rw (child, dies, pass_on) refl))
  ]
]

-- One round of the loop, for a process that is not init.
pass_on-round :
    {n : ℕ} (me i : ℕ) (t : Table)
    → Inv n t
    → me ≢ t.initproc
    → Inv n (pass_on me i t)
      × Passing me t (pass_on me i t)
      × (((pass_on me i t).proc i).parent ≢ some me)
      × ((j : ℕ) → j ≢ i → ((pass_on me i t).proc j).parent ≡ (t.proc j).parent)
pass_on-round me i t v ne = elim (pass_on-case me i t) [
  | inl (other_parent, same) ↦ rw same (v, Passing-refl me t, other_parent, λ j out. refl)
  | inr (inl (child, lives, same)) ↦ rw same (
    adopt-Inv me i t child lives v,
    adopt-Passing me i t (λ e. (v.cared i me child).1 (sym e)),
    λ e. ne (ground (arith, e, adopt-parent i t)),
    λ j out. rw (update_other t.proc i _ j out) refl,
  )
  | inr (inr (child, same)) ↦
      let c = wakeup1-Calm (proc t.initproc) (adopt i t) in
      rw same (
        adopt_zombie-Inv me i t child v,
        Passing-trans me t (adopt i t) (wakeup1 (proc t.initproc) (adopt i t))
            (adopt-Passing me i t (λ e. (v.cared i me child).1 (sym e)))
            (Calm-Passing me (adopt i t) _ c),
        λ e. ne (ground (arith, sym (c.parents i) ∙ e, adopt-parent i t)),
        λ j out. c.parents j ∙ rw (update_other t.proc i _ j out) refl,
      )
]

-- The loop from process `i` on, when no process before `i` is a child.
pass_from-passes :
    {n : ℕ} (me rounds i : ℕ) (t : Table)
    → Inv n t
    → me ≢ t.initproc
    → ((j : ℕ) → j < i → (t.proc j).parent ≢ some me)
    → Inv n (pass_from me rounds i t)
      × Passing me t (pass_from me rounds i t)
      × ((j : ℕ) → j < i + rounds → ((pass_from me rounds i t).proc j).parent ≢ some me)
unfolding pass_from
pass_from-passes me zero i t v ne before =
    (v, Passing-refl me t, λ j l. before j (omega (arith, l)))
pass_from-passes me (suc rounds) i t v ne before =
    let t₁ = pass_on me i t in
    let (v₁, p₁, here, others) = pass_on-round me i t v ne in
    let passed : (j : ℕ) → j < i + 1 → (t₁.proc j).parent ≢ some me = λ j l. elim (ℕ-cases j i) [
      | inl at ↦ rw at here
      | inr out ↦ λ e. before j (omega (arith, l, out)) (sym (others j out) ∙ e)
    ] in
    let (v₂, p₂, all) = pass_from-passes me rounds (i + 1) t₁ v₁ (λ e. ne (e ∙ p₁.init)) passed in
    (v₂, Passing-trans me t t₁ _ p₁ p₂, λ j l. all j (omega (arith, l)))

-- The table when the loop of `exit` is over.
abbrev passed_on : ℕ → Table → Table
passed_on me t = pass_from me nproc 0 (wakeup1 (parent_chan (t.proc me).parent) t)

-- `me` as a zombie, when its parent does not wait and it has no children.
bury-Inv :
    {n : ℕ} (me : ℕ) (t : Table)
    → kind (t.proc me).state ≡ living
    → me ≢ t.initproc
    → ((j : ℕ) → (t.proc j).parent ≢ some me)
    → ((q : ℕ) → (t.proc me).parent ≡ some q → waits q (t.proc q) ≡ false)
    → Inv n t
    → Inv n (put me (record (t.proc me) { state = zombie }) t)
bury-Inv me t k ne alone awake v =
    Fits-Inv t (put me (record (t.proc me) { state = zombie }) t) me
      (record (t.proc me) { state = zombie }) v
      (record {
        below = λ b. absurd (ground (arith, v.bounded me b, k));
        unowned = λ h. absurd (ground (arith, h));
        owned = λ out e. absurd (ground (arith, v.owned me out e, k));
        cared = λ q e. v.cared me q e;
        caring = λ j out e. absurd (alone j e);
        root = λ e. absurd (ne e);
        heard = λ q d e. awake q e;
        hears = λ j out d e. absurd (alone j e);
        grows = λ w. omega arith;
        small = λ w h. v.small w me (λ f. ground (arith, f, k));
        distinct = λ w j out h kj e. out (sym (v.distinct w me j (λ f. ground (arith, f, k)) kj e));
      })
      (update_here t.proc me _) (λ j out. update_other t.proc me _ j out) refl refl

-- When the loop is over nobody is a child of `me`, and its parent does not wait.
passed_on-passes :
    {n : ℕ} (me : ℕ) (t : Table)
    → Inv n t
    → me ≢ t.initproc
    → Inv n (passed_on me t)
      × Passing me t (passed_on me t)
      × ((j : ℕ) → ((passed_on me t).proc j).parent ≢ some me)
      × ((q : ℕ) → (t.proc me).parent ≡ some q → waits q ((passed_on me t).proc q) ≡ false)
unfolding wakeup1
passed_on-passes me t v ne =
    let c = parent_chan (t.proc me).parent in
    let t₁ = wakeup1 c t in
    let p₁ = Calm-Passing me t t₁ (wakeup1-Calm c t) in
    let (v₂, p₂, none_left) =
      pass_from-passes me nproc 0 t₁ (wakeup1-Inv c t v) (λ h. ne (h ∙ p₁.init))
        (λ i l. absurd (omega (arith, l))) in
    (
      v₂,
      Passing-trans me t t₁ (passed_on me t) p₁ p₂,
      λ j e. elim (<-cases j nproc) [
        | inl l ↦ none_left j (omega (arith, l)) e
        | inr b ↦ ground (arith, v₂.unowned j (inl (v₂.bounded j b)), e)
      ],
      λ q e. p₂.waiting q (
          subst (λ x. waits q (wake (parent_chan x) (t.proc q)) ≡ false) (sym e)
            (woken q (t.proc q))),
    )

-- The table that `exit` leaves.
abbrev pub left : ℕ → Table → Table
left me t = put me (record ((passed_on me t).proc me) { state = zombie }) (passed_on me t)

pub exit-left : (me : ℕ) (t t' : Table) → exit me t ≡ some t' → (me ≢ t.initproc) × (left me t ≡ t')
unfolding exit
exit-left me t t' e = elim (Bool-cases (me == t.initproc)) [
  | inl panics ↦ absurd (ground (arith, e, panics))
  | inr goes ↦
      let runs : some (left me t) ≡ some t' = rw (goes, exit) refl ∙ e in
      (ground (arith, goes), ap (λ o. elim o [ none ↦ left me t | some s ↦ s ]) runs)
]

pub exit-Inv :
    {n : ℕ} (me : ℕ) (t t' : Table)
    → (t.proc me).state ≡ running
    → exit me t ≡ some t'
    → Inv n t
    → Inv n t'
exit-Inv {n} me t t' k e v =
    let (ne, same) = exit-left me t t' e in
    let (v', p, alone, awake) = passed_on-passes me t v ne in
    let t'' = passed_on me t in
    let living_me : kind (t.proc me).state ≡ living = rw k refl in
    subst (Inv n) same (
      bury-Inv me t'' (p.kinds me ∙ living_me) (λ h. ne (h ∙ p.init)) alone
        (λ q h. awake q (sym p.mine ∙ h)) v')

pub exit-zombie :
    {n : ℕ} (me : ℕ) (t t' : Table)
    → exit me t ≡ some t'
    → Inv n t
    → ((t'.proc me).state ≡ zombie) × ((t'.proc me).parent ≡ (t.proc me).parent)
exit-zombie me t t' e v =
    let (ne, same) = exit-left me t t' e in
    let p = (passed_on-passes me t v ne).1 in
    subst (λ s. ((s.proc me).state ≡ zombie) × ((s.proc me).parent ≡ (t.proc me).parent)) same
      (rw (update_here (passed_on me t).proc me _) (refl, p.mine))
