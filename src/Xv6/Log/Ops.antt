-- ===== src/Xv6/Log/Ops.antt =====
-- The operations of log.c on the log in memory: `begin_op`, `log_write` and `end_op`.
pub mod Laws
pub mod Runs
use os_project.Base.{
  ℕ, zero, suc, ◌+◌, ◌-◌, ◌*◌, Bool, true, false, ◌||◌, Option, none, some, ◌==◌, ltb, leb,
  if◌then◌else◌, update, sub32,
}
use os_project.Xv6.Log.{log_size, max_op_blocks, LogHeader}

-- The `struct log`; `size` is the blocks of the log with its header, at least 1.
pub record Log : Type 0 where
  pub lh : LogHeader
  pub size : ℕ
  pub outstanding : ℕ
  pub committing : Bool

-- `none`: the caller sleeps, and tries again when it is woken.
unfoldable pub begin_op : Log → Option Log
begin_op l =
    if l.committing
    then none
    else if ltb log_size (l.lh.n + (l.outstanding + 1) * max_op_blocks)
    then none
    else some (record l { outstanding = l.outstanding + 1 })

-- The entry that holds block `b`, from entry `i` on; `rounds` more are there.
unfoldable pub find_entry : ℕ → ℕ → (ℕ → ℕ) → ℕ → ℕ
find_entry zero i block b = i
find_entry (suc rounds) i block b =
    let later = find_entry rounds (i + 1) block b in if block i == b then i else later

unfoldable pub add_entry : ℕ → LogHeader → LogHeader
unfolding find_entry
add_entry b lh =
    let i = find_entry lh.n 0 lh.block b in
    record { n = if i == lh.n then lh.n + 1 else lh.n; block = update lh.block i b }

-- `none` is a panic.
unfoldable pub log_write : ℕ → Log → Option Log
log_write b l =
    if leb log_size l.lh.n || leb (l.size - 1) l.lh.n
    then none
    else if ltb l.outstanding 1
    then none
    else some (record l { lh = add_entry b l.lh })

-- Up to the first release of the lock, with `do_commit`; `none` is a panic.
unfoldable pub end_op : Log → Option (Log × Bool)
end_op l =
    if l.committing
    then none
    else if sub32 l.outstanding 1 == 0
    then some (record l { outstanding = sub32 l.outstanding 1; committing = true }, true)
    else some (record l { outstanding = sub32 l.outstanding 1 }, false)

-- What follows the commit, which has emptied the log.
unfoldable pub end_commit : Log → Log
end_commit l = record l { lh = record (l.lh) { n = 0 }; committing = false }
