-- ===== src/Xv6/Log/Recovery.antt =====
-- `recover_from_log` of log.c, and the end that a commit shares with it, whether or not the power fails
-- on the way.
use os_project.Base.{
  ℕ, ◌+◌, ◌<◌, ◌≡◌, ◌≢◌, inl, inr, refl, sym, ap, ◌∙◌, ◌==◌, ltb, if◌then◌else◌, arith, Bool-cases,
}
use mathlib.Core.Path.{subst}
use os_project.Xv6.Log.{
  Block, LogHeader, Machine, install_trans, read_head, write_head, clear, recover_from_log, reboot,
}
use os_project.Xv6.Log.Install.{Coherent, Installs, install_from-Installs}
use os_project.Xv6.Log.Content.{IsHome, content, committed, IsValid, content-cong}

module _ (start : ℕ) where
  pub write_head_disk : (m : Machine) (y : ℕ) → y ≢ start → (write_head start m).disk y ≡ m.disk y
  unfolding write_head
  write_head_disk m y ne = ground (arith, ne)

  pub write_head_off : (m : Machine) → m.power ≡ 0 → (write_head start m).disk ≡ m.disk
  unfolding write_head
  write_head_off m off = ground (arith, off)

  pub write_head_on :
      (m : Machine) (i : ℕ)
      → m.power ≢ 0
      → ((write_head start m).disk start 0 ≡ m.lh.n)
        × (i < m.lh.n → (write_head start m).disk start (i + 1) ≡ m.lh.block i)
  unfolding write_head
  write_head_on m i on = ground (arith, on)

  -- The header that the disk holds is valid.
  abbrev pub HasHeader : (ℕ → Block) → Type 0
  HasHeader disk = IsValid start (disk start 0) (λ i. disk start (i + 1))

  -- The header of the disk with its entries under another name.
  pub committed_as :
      (n : ℕ) (block : ℕ → ℕ) (disk disk' : ℕ → Block) (x : ℕ)
      → disk start ≡ disk' start
      → disk' start 0 ≡ n
      → ((i : ℕ) → i < n → disk' start (i + 1) ≡ block i)
      → committed start disk x ≡ content start n block disk x
  committed_as n block disk disk' x e h k =
      ap (λ (b : Block). content start (b 0) (λ i. b (i + 1)) disk x) e
      ∙ ap (λ j. content start j (λ i. disk' start (i + 1)) disk x) h
      ∙ content-cong start n (λ i. disk' start (i + 1)) block disk x k

  -- What a recovery of the disk leaves.
  pub record Recovers (power : ℕ) (disk disk' : ℕ → Block) : Type 0 where
    pub kept : (x : ℕ) → IsHome start x → committed start disk' x ≡ committed start disk x
    pub valid : HasHeader disk'
    pub done :
        disk start 0 < power
        → (disk' start 0 ≡ 0) × ((x : ℕ) → IsHome start x → disk' x ≡ committed start disk x)

  -- The log of `ready` is on the disk, its header too: what follows installs and clears it.
  module _ (ready : Machine) (v : IsValid start ready.lh.n ready.lh.block)
      (coherent : Coherent start ready.lh.n ready) (size : ready.disk start 0 ≡ ready.lh.n)
      (entry : (i : ℕ) → i < ready.lh.n → ready.disk start (i + 1) ≡ ready.lh.block i) where
    abbrev n : ℕ
    n = ready.lh.n

    abbrev result : Machine
    result = install_trans start ready

    abbrev written : Machine
    written = write_head start (clear result)

    installs : Installs start n n 0 ready result
    unfolding install_trans
    installs = install_from-Installs start n n 0 ready (omega arith) v coherent

    result_content :
        (x : ℕ) → content start n ready.lh.block result.disk x ≡ committed start ready.disk x
    result_content x =
        installs.content_kept x
        ∙ sym (committed_as n ready.lh.block ready.disk ready.disk x refl size entry)

    result_header : result.disk start ≡ ready.disk start
    result_header = installs.log_kept start (omega arith)

    result_valid : HasHeader result.disk
    result_valid =
        subst (λ (b : Block). IsValid start (b 0) (λ i. b (i + 1))) (sym result_header)
          (record {
            fits = omega (arith, size, v.fits);
            homes = λ i l.
                subst (IsHome start) (sym (entry i (omega (arith, l, size))))
                  (v.homes i (omega (arith, l, size)));
          })

    result_committed : (x : ℕ) → committed start result.disk x ≡ committed start ready.disk x
    result_committed x =
        committed_as n ready.lh.block result.disk ready.disk x result_header size entry
        ∙ result_content x

    result_installed : (x : ℕ) → result.power ≢ 0 → result.disk x ≡ committed start ready.disk x
    result_installed x on =
        installs.installed x (omega (arith, installs.power_left, on)) refl ∙ result_content x

    written_off : result.power ≡ 0 → Recovers ready.power ready.disk written.disk
    written_off off =
        subst (λ d. Recovers ready.power ready.disk d) (sym (write_head_off (clear result) off))
          (record {
            kept = λ x h. result_committed x;
            valid = result_valid;
            done = λ l. absurd (omega (arith, l, off, size, installs.power_left));
          })

    written_on : result.power ≢ 0 → Recovers ready.power ready.disk written.disk
    written_on on = record {
      kept = λ x h. stands x ∙ installed x h;
      valid = record {
        fits = omega (arith, empty);
        homes = λ i l. absurd (omega (arith, l, empty));
      };
      done = λ l. (empty, installed);
    }
      where
        empty : written.disk start 0 ≡ 0
        empty = (write_head_on (clear result) 0 on).0

        stands : (x : ℕ) → committed start written.disk x ≡ written.disk x
        stands x =
            committed_as 0 (clear result).lh.block written.disk written.disk x refl empty
              (λ i l. absurd (omega (arith, l)))

        installed : (x : ℕ) → IsHome start x → written.disk x ≡ committed start ready.disk x
        installed x h =
            write_head_disk (clear result) x (λ e. omega (arith, h, e)) ∙ result_installed x on

    pub written-Recovers : Recovers ready.power ready.disk written.disk
    written-Recovers = elim (Bool-cases (result.power == 0)) [
      | inl off ↦ written_off (ground (arith, off))
      | inr on ↦ written_on (ground (arith, on))
    ]

  -- A recovery, stopped after any number of writes, leaves what the disk stands for, so that another
  -- one can follow it. One that may write more blocks than the log has entries installs them all and
  -- empties the log.
  pub recover_from_log-Recovers :
      (power : ℕ) (garbage : LogHeader) (m : Machine)
      → HasHeader m.disk
      → Recovers power m.disk (recover_from_log start (reboot power garbage m)).disk
  unfolding recover_from_log
  recover_from_log-Recovers power garbage m v =
      written-Recovers (read_head start (reboot power garbage m))
        (record { fits = v.fits; homes = λ i l. subst (IsHome start) (found i l) (v.homes i l) })
        (λ i l. refl) refl found
    where
      found :
          (i : ℕ)
          → i < m.disk start 0
          → m.disk start (i + 1)
            ≡ (if ltb i (m.disk start 0) then m.disk start (i + 1) else garbage.block i)
      found i l = ground (arith, l)
