-- ===== src/Xv6/Log/Ops/Laws.antt =====
-- The entries of the log in memory, and the runs of the operations of log.c.
use os_project.Base.{
  ℕ, zero, suc, ◌+◌, ◌≤◌, ◌<◌, ◌≡◌, ◌≢◌, ◌⊎◌, inl, inr, refl, sym, ap, ◌∙◌, some, ◌==◌, arith,
  Bool-cases,
}
use mathlib.Core.Logic.{◌↔◌}
use os_project.Xv6.Log.{LogHeader}
use os_project.Xv6.Log.Ops.{Log, find_entry, add_entry, log_write}

-- What a search from entry `i` on finds: the first entry with the block, or the end.
find_entry_lem :
    (rounds i b : ℕ) (block : ℕ → ℕ)
    → let j = find_entry rounds i block b in
      (i ≤ j) × (j ≤ i + rounds) × ((j ≡ i + rounds) ⊎ (block j ≡ b))
unfolding find_entry
find_entry_lem zero i b block = (omega arith, omega arith, inl (omega arith))
find_entry_lem (suc rounds) i b block = ground (arith, find_entry_lem rounds (i + 1) b block)

find_entry_before :
    (rounds i b : ℕ) (block : ℕ → ℕ) (k : ℕ) → i ≤ k → k < find_entry rounds i block b → block k ≢ b
unfolding find_entry
find_entry_before zero i b block k h l = absurd (omega (arith, h, l))
find_entry_before (suc rounds) i b block k h l = elim (Bool-cases (block i == b)) [
  | inl here ↦ absurd (omega (arith, h, rw here at l))
  | inr there ↦ elim (Bool-cases (k == i)) [
    | inl same ↦
        let e : k ≡ i = ground (arith, same) in
        let there_too : block k ≡ block i = ap block e in ground (arith, there, there_too)
    | inr after ↦
        find_entry_before rounds (i + 1) b block k (ground (arith, h, after)) (rw there at l)
  ]
]

-- No block has two entries.
abbrev pub IsDistinct : LogHeader → Type 0
IsDistinct lh = (i j : ℕ) → i < j → j < lh.n → lh.block i ≢ lh.block j

-- The block has an entry.
abbrev pub Holds : LogHeader → ℕ → Type 0
Holds lh b = (i : ℕ) × (i < lh.n) × (lh.block i ≡ b)

module _ (b : ℕ) (lh : LogHeader) where
  abbrev place : ℕ
  place = find_entry lh.n 0 lh.block b

  -- What `add_entry` does, by the place that the search finds.
  add_entry_lem :
      ((place ≡ lh.n)
        × ((add_entry b lh).n ≡ lh.n + 1)
        × ((k : ℕ) → k < lh.n → (add_entry b lh).block k ≡ lh.block k)
        × ((add_entry b lh).block lh.n ≡ b)
        × ((k : ℕ) → k < lh.n → lh.block k ≢ b))
      ⊎ ((place < lh.n)
          × ((add_entry b lh).n ≡ lh.n)
          × ((k : ℕ) → (add_entry b lh).block k ≡ lh.block k)
          × (lh.block place ≡ b))
  unfolding add_entry
  add_entry_lem = elim (Bool-cases (place == lh.n)) [
    | inl new ↦ inl (
      ground (arith, new),
      ground (arith, new),
      λ k l. ground (arith, new),
      ground (arith, new),
      λ k l. find_entry_before lh.n 0 b lh.block k (omega arith) (ground (arith, new, l)),
    )
    | inr old ↦
        let found : lh.block place ≡ b = ground (arith, old, find_entry_lem lh.n 0 b lh.block) in
        inr (
          ground (arith, old, find_entry_lem lh.n 0 b lh.block),
          ground (arith, old),
          λ k. elim (Bool-cases (place == k)) [
            | inl here ↦
                let e : place ≡ k = ground (arith, here) in rw here (sym found ∙ ap lh.block e)
            | inr there ↦ rw there refl
          ],
          found,
        )
  ]

  add_entry-IsDistinct : IsDistinct lh → IsDistinct (add_entry b lh)
  add_entry-IsDistinct d i j l k e = elim add_entry_lem [
    | inl (_, n, kept, last, fresh) ↦ elim (Bool-cases (j == lh.n)) [
      | inl end ↦
          let small : i < lh.n = ground (arith, l, end) in
          let same : j ≡ lh.n = ground (arith, end) in
          fresh i small (sym (kept i small) ∙ e ∙ ap (add_entry b lh).block same ∙ last)
      | inr before ↦
          let small : j < lh.n = ground (arith, before, k, n) in
          d i j l small (sym (kept i (omega (arith, l, small))) ∙ e ∙ kept j small)
    ]
    | inr (_, n, kept, _) ↦ d i j l (omega (arith, k, n)) (sym (kept i) ∙ e ∙ kept j)
  ]

  add_entry-Holds : (x : ℕ) → (Holds (add_entry b lh) x) ↔ (Holds lh x ⊎ (x ≡ b))
  add_entry-Holds x = elim add_entry_lem [
    | inl (_, n, kept, last, _) ↦ (
      λ (i, l, e). elim (Bool-cases (i == lh.n)) [
        | inl end ↦
            let same : i ≡ lh.n = ground (arith, end) in
            inr (sym e ∙ ap (add_entry b lh).block same ∙ last)
        | inr before ↦
            let small : i < lh.n = ground (arith, before, l, n) in
            inl (i, small, sym (kept i small) ∙ e)
      ],
      λ h. elim h [
        | inl (i, l, e) ↦ (i, omega (arith, l, n), kept i l ∙ e)
        | inr e ↦ (lh.n, omega (arith, n), last ∙ sym e)
      ],
    )
    | inr (l₀, n, kept, found) ↦ (
      λ (i, l, e). inl (i, omega (arith, l, n), sym (kept i) ∙ e),
      λ h. elim h [
        | inl (i, l, e) ↦ (i, omega (arith, l, n), kept i ∙ e)
        | inr e ↦ (place, omega (arith, l₀, n), kept place ∙ found ∙ sym e)
      ],
    )
  ]

-- If no block has two entries in the log and the call does not panic, a block that is written gets
-- one entry, whether or not it had one; the other blocks keep theirs, and no block gets two.
log_write-Holds :
    (b : ℕ) (l l' : Log)
    → IsDistinct l.lh
    → log_write b l ≡ some l'
    → IsDistinct l'.lh × ((x : ℕ) → Holds l'.lh x ↔ (Holds l.lh x ⊎ (x ≡ b)))
unfolding log_write
log_write-Holds b l l' d e =
    let same : l'.lh ≡ add_entry b l.lh = ground (arith, e) in
    rw same (add_entry-IsDistinct b l.lh d, add_entry-Holds b l.lh)
