-- ===== src/Xv6/Log/Slots.antt =====
-- `write_log` of log.c, slot by slot, whether or not the power fails on the way.
use os_project.Base.{
  ℕ, zero, suc, ◌+◌, ◌-◌, ◌≤◌, ◌<◌, ◌≡◌, ◌≢◌, inl, inr, refl, ◌∙◌, ◌==◌, arith, Bool-cases,
}
use mathlib.Core.Path.{subst}
use os_project.Xv6.Log.{Machine, copy_block, write_log_from}
use os_project.Xv6.Log.Content.{IsValid}
use os_project.Xv6.Log.Install.{copy_block_outside, copy_block_target}

module _ (start : ℕ) where
  -- The slots that the loop has still to write, from `tail` on.
  abbrev pub IsSlot : ℕ → ℕ → ℕ → Type 0
  IsSlot tail n y = (start + tail < y) × (y ≤ start + n)

  pub record Logs (n rounds tail : ℕ) (m m' : Machine) : Type 0 where
    pub header : m'.lh ≡ m.lh
    pub power_left : m'.power ≡ m.power - rounds
    pub kept : (y : ℕ) → ¬ IsSlot tail n y → (m'.disk y ≡ m.disk y) × (m'.cache y ≡ m.cache y)
    pub slots :
        (i : ℕ)
        → tail ≤ i
        → i < n
        → (m'.cache (start + i + 1) ≡ m.cache (m.lh.block i))
          × (rounds ≤ m.power → m'.disk (start + i + 1) ≡ m.cache (m.lh.block i))

  -- The loop from entry `tail` on is a copy and the loop behind it.
  module _ (n rounds tail : ℕ) (m : Machine) (e : tail + suc rounds ≡ n)
      (v : IsValid start n m.lh.block) where
    abbrev slot : ℕ
    slot = start + tail + 1

    abbrev copied : Machine
    copied = copy_block slot (m.lh.block tail) m

    outside : (y : ℕ) → y ≢ slot → (copied.disk y ≡ m.disk y) × (copied.cache y ≡ m.cache y)
    outside y ne = copy_block_outside start slot (m.lh.block tail) m y ne

    module _ (after : Machine) (rest : Logs n rounds (tail + 1) copied after) where
      this_slot :
          (after.cache slot ≡ m.cache (m.lh.block tail))
          × (suc rounds ≤ m.power → after.disk slot ≡ m.cache (m.lh.block tail))
      this_slot =
          let k = rest.kept slot (λ h. omega (arith, h)) in
          let t = copy_block_target start slot (m.lh.block tail) m in
          (k.1 ∙ t.0, λ p. k.0 ∙ ground (arith, t, p))

      later_slot :
          (i : ℕ)
          → tail + 1 ≤ i
          → i < n
          → (after.cache (start + i + 1) ≡ m.cache (m.lh.block i))
            × (suc rounds ≤ m.power → after.disk (start + i + 1) ≡ m.cache (m.lh.block i))
      unfolding copy_block
      later_slot i later k =
          let s = rest.slots i later k in
          let home = v.homes i k in
          let cached = (outside (m.lh.block i) (λ q. omega (arith, q, home, v.fits, e))).1 in
          (s.0 ∙ cached, λ p. s.1 (omega (arith, p)) ∙ cached)

      step-Logs : Logs n (suc rounds) tail m after
      unfolding copy_block
      step-Logs = record {
        header = rest.header;
        power_left = rest.power_left ∙ omega arith;
        kept = λ y h.
            let k = rest.kept y (λ q. h (omega (arith, q))) in
            let o = outside y (λ q. h (omega (arith, q, e))) in (k.0 ∙ o.0, k.1 ∙ o.1);
        slots = λ i l k. elim (Bool-cases (i == tail)) [
          | inl here ↦
              subst
                (λ j.
                  (after.cache (start + j + 1) ≡ m.cache (m.lh.block j))
                  × (suc rounds ≤ m.power → after.disk (start + j + 1) ≡ m.cache (m.lh.block j)))
                (ground (arith, here)) this_slot
          | inr there ↦ later_slot i (ground (arith, there, l)) k
        ];
      }

  pub write_log_from-Logs :
      (n rounds tail : ℕ) (m : Machine)
      → tail + rounds ≡ n
      → IsValid start n m.lh.block
      → Logs n rounds tail m (write_log_from start rounds tail m)
  unfolding write_log_from copy_block
  write_log_from-Logs n zero tail m e v = record {
    header = refl;
    power_left = omega arith;
    kept = λ y h. (refl, refl);
    slots = λ i l k. absurd (omega (arith, e, l, k));
  }
  write_log_from-Logs n (suc rounds) tail m e v =
      let m₁ = copied n rounds tail m e v in
      step-Logs n rounds tail m e v (write_log_from start rounds (tail + 1) m₁)
        (write_log_from-Logs n rounds (tail + 1) m₁ (omega (arith, e)) v)
