-- ===== src/Xv6/Log/Install.antt =====
-- `install_trans` of log.c, entry by entry, whether or not the power fails on the way.
use os_project.Base.{
  ℕ, zero, suc, ◌+◌, ◌-◌, ◌≤◌, ◌<◌, ◌≡◌, ◌≢◌, inl, inr, refl, sym, ◌∙◌, ◌==◌, if◌then◌else◌, arith,
  Bool-cases,
}
use mathlib.Core.Path.{subst}
use os_project.Xv6.Log.{nlog, Machine, copy_block, install_from}
use os_project.Xv6.Log.Content.{content, IsValid, content-agree, content-ignore}

module _ (start : ℕ) where
  -- The block is the header or a slot of the log.
  abbrev pub InLog : ℕ → Type 0
  InLog y = (start ≤ y) × (y < start + nlog)

  -- The cache holds the slots of the log as the disk does.
  abbrev pub Coherent : ℕ → Machine → Type 0
  Coherent n m = (i : ℕ) → i < n → m.cache (start + i + 1) ≡ m.disk (start + i + 1)

  pub copy_block_outside :
      (to from : ℕ) (m : Machine) (y : ℕ)
      → y ≢ to
      → ((copy_block to from m).disk y ≡ m.disk y) × ((copy_block to from m).cache y ≡ m.cache y)
  unfolding copy_block
  copy_block_outside to from m y ne = ground (arith, ne)

  pub copy_block_target :
      (to from : ℕ) (m : Machine)
      → ((copy_block to from m).cache to ≡ m.cache from)
        × ((copy_block to from m).disk to ≡ (if m.power == 0 then m.disk to else m.cache from))
  unfolding copy_block
  copy_block_target to from m = ground arith

  -- One entry of the log, `tail`, is installed.
  module _ (n tail : ℕ) (m : Machine) (lt : tail < n) (v : IsValid start n m.lh.block)
      (coherent : Coherent n m) where
    abbrev target : ℕ
    target = m.lh.block tail

    abbrev after : Machine
    after = copy_block target (start + tail + 1) m

    slot-ne-target : (y : ℕ) → InLog y → y ≢ target
    slot-ne-target y h e = let home = v.homes tail lt in omega (arith, h, home, e)

    slots_kept : (i : ℕ) → i < n → after.disk (start + i + 1) ≡ m.disk (start + i + 1)
    slots_kept i l =
        (copy_block_outside target (start + tail + 1) m (start + i + 1)
          (slot-ne-target (start + i + 1) (omega (arith, v.fits, l)))).0

    step-Coherent : Coherent n after
    step-Coherent i l =
        (copy_block_outside target (start + tail + 1) m (start + i + 1)
          (slot-ne-target (start + i + 1) (omega (arith, v.fits, l)))).1
        ∙ coherent i l
        ∙ sym (slots_kept i l)

    step_content :
        (x : ℕ) → content start n m.lh.block after.disk x ≡ content start n m.lh.block m.disk x
    step_content x = elim (Bool-cases (target == x)) [
      | inl here ↦
          subst (λ y. content start n m.lh.block after.disk y ≡ content start n m.lh.block m.disk y)
            (ground (arith, here))
            (content-ignore start n tail m.lh.block after.disk m.disk lt slots_kept)
      | inr there ↦
          content-agree start n m.lh.block after.disk m.disk x
            (copy_block_outside target (start + tail + 1) m x (ground (arith, there))).0 slots_kept
    ]

    -- With power, the entries up to this one are installed, if those before it were.
    step_installs :
        (x : ℕ)
        → m.power ≢ 0
        → m.disk x ≡ content start tail m.lh.block m.disk x
        → after.disk x ≡ content start (suc tail) m.lh.block after.disk x
    step_installs x power h = elim (Bool-cases (target == x)) [
      | inl here ↦
          let e : target ≡ x = ground (arith, here) in
          let slot : after.disk target ≡ after.disk (start + tail + 1) = ground (
            arith,
            power,
            copy_block_target target (start + tail + 1) m,
            coherent tail lt,
            slots_kept tail lt,
          ) in
          rw here (subst (λ y. after.disk y ≡ after.disk (start + tail + 1)) e slot)
      | inr there ↦
          let same = (copy_block_outside target (start + tail + 1) m x (ground (arith, there))).0 in
          rw there (
            same
            ∙ h
            ∙ sym (
                content-agree start tail m.lh.block after.disk m.disk x same
                  (λ i l. slots_kept i (omega (arith, l, lt)))))
    ]

  -- What the loop does from entry `tail` on.
  pub record Installs (n rounds tail : ℕ) (m m' : Machine) : Type 0 where
    pub header : m'.lh ≡ m.lh
    pub power_left : m'.power ≡ m.power - rounds
    pub log_kept : (y : ℕ) → InLog y → m'.disk y ≡ m.disk y
    pub content_kept :
        (x : ℕ) → content start n m.lh.block m'.disk x ≡ content start n m.lh.block m.disk x
    pub installed :
        (x : ℕ)
        → rounds < m.power
        → m.disk x ≡ content start tail m.lh.block m.disk x
        → m'.disk x ≡ content start n m.lh.block m'.disk x

  pub install_from-Installs :
      (n rounds tail : ℕ) (m : Machine)
      → tail + rounds ≡ n
      → IsValid start n m.lh.block
      → Coherent n m
      → Installs n rounds tail m (install_from start rounds tail m)
  unfolding install_from copy_block
  install_from-Installs n zero tail m e v c = record {
    header = refl;
    power_left = omega arith;
    log_kept = λ y h. refl;
    content_kept = λ x. refl;
    installed = λ x p h.
        let same : tail ≡ n = omega (arith, e) in
        subst (λ k. m.disk x ≡ content start k m.lh.block m.disk x) same h;
  }
  install_from-Installs n (suc rounds) tail m e v c =
      let lt : tail < n = omega (arith, e) in
      let m₁ = after n tail m lt v c in
      let rest =
        install_from-Installs n rounds (tail + 1) m₁ (omega (arith, e)) v
          (step-Coherent n tail m lt v c) in
      record {
        header = rest.header;
        power_left = rest.power_left ∙ omega arith;
        log_kept = λ y h.
            rest.log_kept y h
            ∙ (copy_block_outside (m.lh.block tail) (start + tail + 1) m y
                (slot-ne-target n tail m lt v c y h)).0;
        content_kept = λ x. rest.content_kept x ∙ step_content n tail m lt v c x;
        installed = λ x p h. rest.installed x (omega (arith, p)) (
            let next : tail + 1 ≡ suc tail = omega arith in
            subst (λ k. m₁.disk x ≡ content start k m.lh.block m₁.disk x) (sym next)
              (step_installs n tail m lt v c x (omega (arith, p)) h));
      }

  -- Without power nothing is installed.
  pub install_from_off :
      (rounds tail : ℕ) (m : Machine)
      → m.power ≡ 0
      → ((install_from start rounds tail m).disk ≡ m.disk)
        × ((install_from start rounds tail m).power ≡ 0)
  unfolding install_from copy_block
  install_from_off zero tail m off = (refl, off)
  install_from_off (suc rounds) tail m off =
      let m₁ = copy_block (m.lh.block tail) (start + tail + 1) m in
      let rest = install_from_off rounds (tail + 1) m₁ (omega (arith, off)) in
      (rest.0 ∙ ground (arith, off), rest.1)
