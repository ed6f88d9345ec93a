-- ===== src/Xv6/Log/Commit.antt =====
-- `commit` of log.c, and the recovery after a failure of the power at any of its writes.
use os_project.Base.{
  ℕ, zero, suc, ◌+◌, ◌-◌, ◌*◌, ◌≤◌, ◌<◌, ◌≡◌, ◌≢◌, ◌⊎◌, inl, inr, refl, sym, ap, ◌∙◌, ◌==◌, arith,
  Bool-cases, List, [], ◌∷◌,
}
use mathlib.Core.Path.{subst}
use os_project.Xv6.Log.{
  Block, nlog, LogHeader, Machine, install_trans, write_log, write_head, clear, commit,
  recover_from_log, reboot,
}
use os_project.Xv6.Log.Content.{IsHome, content, committed, IsValid}
use os_project.Xv6.Log.Install.{install_from_off}
use os_project.Xv6.Log.Recovery.{
  HasHeader, Recovers, committed_as, write_head_disk, write_head_off, write_head_on,
  written-Recovers, recover_from_log-Recovers,
}
use os_project.Xv6.Log.Slots.{Logs, write_log_from-Logs}

module _ (start : ℕ) where
  -- A transaction that can be committed: its blocks fit the log, the log on the disk is empty, and only
  -- blocks of the transaction differ between the cache and the disk.
  pub record Ready (m : Machine) : Type 0 where
    pub valid : IsValid start m.lh.n m.lh.block
    pub empty : m.disk start 0 ≡ 0
    pub cached :
        (x : ℕ) → IsHome start x → ((i : ℕ) → i < m.lh.n → m.lh.block i ≢ x) → m.cache x ≡ m.disk x

  -- The disk stands for the blocks of `now`, outside the log.
  abbrev pub StandsFor : (ℕ → Block) → (ℕ → Block) → Type 0
  StandsFor disk now = (x : ℕ) → IsHome start x → committed start disk x ≡ now x

  -- What the slots hold, where the log names the block.
  content_slots :
      (n : ℕ) (block : ℕ → ℕ) (disk now : ℕ → Block) (x : ℕ)
      → ((i : ℕ) → i < n → disk (start + i + 1) ≡ now (block i))
      → (((i : ℕ) → i < n → block i ≢ x) → disk x ≡ now x)
      → content start n block disk x ≡ now x
  content_slots zero block disk now x slots other = other (λ i l. absurd (omega (arith, l)))
  content_slots (suc n) block disk now x slots other = elim (Bool-cases (block n == x)) [
    | inl here ↦
        let e : block n ≡ x = ground (arith, here) in rw here (slots n (omega arith) ∙ ap now e)
    | inr there ↦
        let ne : block n ≢ x = ground (arith, there) in
        rw there (
          content_slots n block disk now x (λ i l. slots i (omega (arith, l)))
            (λ h. other (λ i l. elim (Bool-cases (i == n)) [
              | inl last ↦
                  let same : n ≡ i = ground (arith, last) in subst (λ j. block j ≢ x) same ne
              | inr before ↦ h i (ground (arith, before, l))
            ])))
  ]

  module _ (m : Machine) (r : Ready m) where
    abbrev n : ℕ
    n = m.lh.n

    abbrev logged : Machine
    logged = write_log start m

    abbrev headed : Machine
    headed = write_head start logged

    abbrev ended : Machine
    ended = write_head start (clear (install_trans start headed))

    logs : Logs start n n 0 m logged
    unfolding write_log
    logs = write_log_from-Logs start n n 0 m (omega arith) r.valid

    home_kept : (x : ℕ) → IsHome start x → (logged.disk x ≡ m.disk x) × (logged.cache x ≡ m.cache x)
    home_kept x h = logs.kept x (λ s. let fits = r.valid.fits in omega (arith, s, h, fits))

    empty_kept : logged.disk start 0 ≡ 0
    empty_kept = ap (λ (b : Block). b 0) (logs.kept start (λ s. omega (arith, s))).0 ∙ r.empty

    -- While the header on the disk is empty, the disk stands for its own blocks.
    stands_as_is : (disk : ℕ → Block) (x : ℕ) → disk start 0 ≡ 0 → committed start disk x ≡ disk x
    stands_as_is disk x e = ap (λ k. content start k (λ i. disk start (i + 1)) disk x) e

    logged_old : StandsFor logged.disk m.disk
    logged_old x h = stands_as_is logged.disk x empty_kept ∙ (home_kept x h).0

    written_rest :
        (headed.lh ≡ logged.lh)
        × (headed.power ≡ logged.power - 1)
        × ((y : ℕ) → y ≢ start → headed.cache y ≡ logged.cache y)
    unfolding write_head
    written_rest = (refl, refl, λ y ne. ground (arith, ne))

    headed_lh : headed.lh ≡ m.lh
    headed_lh = written_rest.0 ∙ logs.header

    -- The power fails before the header is written.
    module _ (off : logged.power ≡ 0) where
      ended_off : ended.disk ≡ logged.disk
      unfolding install_trans
      ended_off =
          let i =
            install_from_off start headed.lh.n 0 headed (omega (arith, written_rest.1, off)) in
          write_head_off start (clear (install_trans start headed)) i.1
          ∙ i.0
          ∙ write_head_off start logged off

      ended_old : HasHeader start ended.disk × StandsFor ended.disk m.disk
      ended_old =
          subst (λ d. HasHeader start d × StandsFor d m.disk) (sym ended_off)
            (
              record {
                fits = omega (arith, empty_kept);
                homes = λ i l. absurd (omega (arith, l, empty_kept));
              },
              logged_old,
            )

    -- The header is written.
    module _ (on : logged.power ≢ 0) where
      size : headed.disk start 0 ≡ n
      size = (write_head_on start logged 0 on).0 ∙ ap (λ (h : LogHeader). h.n) logs.header

      entry : (i : ℕ) → i < n → headed.disk start (i + 1) ≡ m.lh.block i
      entry i l =
          (write_head_on start logged i on).1
            (omega (arith, l, ap (λ (h : LogHeader). h.n) logs.header))
          ∙ ap (λ (h : LogHeader). h.block i) logs.header

      slot_disk : (i : ℕ) → i < n → headed.disk (start + i + 1) ≡ m.cache (m.lh.block i)
      slot_disk i l =
          write_head_disk start logged (start + i + 1) (λ e. omega (arith, e))
          ∙ (logs.slots i (omega arith) l).1 (omega (arith, on, logs.power_left))

      headed_new : StandsFor headed.disk m.cache
      headed_new x h =
          committed_as start n m.lh.block headed.disk headed.disk x refl size entry
          ∙ content_slots n m.lh.block headed.disk m.cache x slot_disk (λ none_here.
            write_head_disk start logged x (λ e. omega (arith, e, h))
            ∙ (home_kept x h).0
            ∙ sym (r.cached x h none_here))

      ended_new : Recovers start headed.power headed.disk ended.disk
      ended_new =
          written-Recovers start headed
            (subst (λ (h : LogHeader). IsValid start h.n h.block) (sym headed_lh) r.valid)
            (λ i l.
              let small : i < n = omega (arith, l, ap (λ (h : LogHeader). h.n) headed_lh) in
              written_rest.2 (start + i + 1) (λ e. omega (arith, e))
              ∙ (logs.slots i (omega arith) small).0
              ∙ sym (slot_disk i small))
            (size ∙ sym (ap (λ (h : LogHeader). h.n) headed_lh))
            (λ i l.
              entry i (omega (arith, l, ap (λ (h : LogHeader). h.n) headed_lh))
              ∙ sym (ap (λ (h : LogHeader). h.block i) headed_lh))

    -- The disk stands for the old blocks, or for the new ones.
    abbrev Either : (ℕ → Block) → Type 0
    Either disk = HasHeader start disk × (StandsFor disk m.disk ⊎ StandsFor disk m.cache)

    commit_stands : Either (commit start m).disk
    unfolding commit
    commit_stands = elim (Bool-cases (n == 0)) [
      | inl none_logged ↦
          let valid : HasHeader start m.disk = record {
            fits = omega (arith, r.empty);
            homes = λ i l. absurd (omega (arith, l, r.empty));
          } in
          rw none_logged (valid, inl (λ x h. stands_as_is m.disk x r.empty))
      | inr some_logged ↦ rw some_logged (elim (Bool-cases (logged.power == 0)) [
        | inl off ↦ let old = ended_old (ground (arith, off)) in (old.0, inl old.1)
        | inr on ↦
            let new = ended_new (ground (arith, on)) in
            (new.valid, inr (λ x h. new.kept x h ∙ headed_new (ground (arith, on)) x h))
      ])
    ]

    commit_done :
        2 * n + 1 < m.power
        → ((commit start m).disk start 0 ≡ 0)
          × ((x : ℕ) → IsHome start x → (commit start m).disk x ≡ m.cache x)
    unfolding commit
    commit_done p = elim (Bool-cases (n == 0)) [
      | inl none_logged ↦
          let zero_n : n ≡ 0 = ground (arith, none_logged) in
          rw none_logged
            (r.empty, λ x h. sym (r.cached x h (λ i l. absurd (omega (arith, l, zero_n)))))
      | inr some_logged ↦
          let on : logged.power ≢ 0 = λ e. omega (arith, e, p, logs.power_left) in
          let d =
            (ended_new on).done (omega (arith, size on, p, logs.power_left, written_rest.1)) in
          rw some_logged (d.0, λ x h. d.1 x h ∙ headed_new on x h)
    ]

  -- Recoveries one after the other, each with its power and what the memory held when it began.
  abbrev pub recoveries : List (ℕ × LogHeader) → Machine → Machine
  recoveries [] m = m
  recoveries ((power, garbage) ∷ rest) m =
      recoveries rest (recover_from_log start (reboot power garbage m))

  recoveries_kept :
      (attempts : List (ℕ × LogHeader)) (m : Machine)
      → HasHeader start m.disk
      → HasHeader start (recoveries attempts m).disk
        × ((x : ℕ)
            → IsHome start x
            → committed start (recoveries attempts m).disk x ≡ committed start m.disk x)
  recoveries_kept [] m v = (v, λ x h. refl)
  recoveries_kept ((power, garbage) ∷ rest) m v =
      let first = recover_from_log-Recovers start power garbage m v in
      let more =
        recoveries_kept rest (recover_from_log start (reboot power garbage m)) first.valid in
      (more.0, λ x h. more.1 x h ∙ first.kept x h)

  -- A commit that has the power for all of its writes puts every block of the transaction in its
  -- place and empties the log on the disk. It starts with an empty log on the disk, entries that fit
  -- the log and name blocks outside it, and a cache that agrees with the disk on the other blocks
  -- outside.
  pub commit_completes :
      (m : Machine)
      → Ready m
      → 2 * m.lh.n + 1 < m.power
      → ((commit start m).disk start 0 ≡ 0)
        × ((x : ℕ) → IsHome start x → (commit start m).disk x ≡ m.cache x)
  commit_completes m r p = commit_done m r p

  -- A commit is atomic. It starts with an empty log on the disk, a transaction whose entries fit the
  -- log and name blocks outside it, and a cache that agrees with the disk on the other blocks
  -- outside. Wherever the power then fails in it, and in however many recoveries after it, a
  -- recovery that has the power for its writes leaves all blocks outside the log as they were before
  -- the transaction, or all as the transaction made them.
  pub commit_atomic :
      (m : Machine) (attempts : List (ℕ × LogHeader)) (power : ℕ) (garbage : LogHeader)
      → Ready m
      → nlog ≤ power
      → let d =
          (recover_from_log start
            (reboot power garbage (recoveries attempts (commit start m)))).disk in
        ((x : ℕ) → IsHome start x → d x ≡ m.disk x) ⊎ ((x : ℕ) → IsHome start x → d x ≡ m.cache x)
  commit_atomic m attempts power garbage r p =
      let (valid, stands) = commit_stands m r in
      let (valid', kept) = recoveries_kept attempts (commit start m) valid in
      let last =
        recover_from_log-Recovers start power garbage (recoveries attempts (commit start m))
          valid' in
      let d = last.done (omega (arith, valid'.fits, p)) in
      elim stands [
        | inl old ↦ inl (λ x h. d.1 x h ∙ kept x h ∙ old x h)
        | inr new ↦ inr (λ x h. d.1 x h ∙ kept x h ∙ new x h)
      ]
