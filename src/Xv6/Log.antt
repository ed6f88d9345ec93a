-- ===== src/Xv6/Log.antt =====
-- The write-ahead log: log.c of B22CS052/Helpful. A block is its words. `bread` gives what the buffer
-- cache holds for a block; `bwrite` sends that to the disk, as long as the machine has power.
pub mod Content
pub mod Install
pub mod Recovery
pub mod Slots
pub mod Commit
pub mod Ops
use os_project.Base.{
  ℕ, zero, suc, ◌+◌, ◌-◌, ◌*◌, Bool, true, false, ◌||◌, Option, none, some, ◌==◌, ltb, leb,
  if◌then◌else◌, update,
}

abbrev pub Block : Type 0
Block = ℕ → ℕ

abbrev pub log_size : ℕ
log_size = 30

-- `nlog` of mkfs.c, which the super block keeps: the blocks of the log, its header with them.
abbrev pub nlog : ℕ
nlog = log_size

abbrev pub max_op_blocks : ℕ
max_op_blocks = 10

pub record LogHeader : Type 0 where
  pub n : ℕ
  pub block : ℕ → ℕ

-- The machine: what `bread` would give, the disk, how many more writes reach the disk before the power
-- fails, and the header in memory.
pub record Machine : Type 0 where
  pub cache : ℕ → Block
  pub disk : ℕ → Block
  pub power : ℕ
  pub lh : LogHeader

unfoldable pub bwrite : ℕ → Machine → Machine
bwrite b m = record m {
  disk = if m.power == 0 then m.disk else update m.disk b (m.cache b);
  power = m.power - 1;
}

-- `memmove(to->data, from->data, BSIZE); bwrite(to);`
unfoldable pub copy_block : ℕ → ℕ → Machine → Machine
unfolding bwrite
copy_block to from m = bwrite to (record m { cache = update m.cache to (m.cache from) })

-- The loop of `install_trans` from `tail` on; the log starts at block `start`.
unfoldable pub install_from : ℕ → ℕ → ℕ → Machine → Machine
install_from start zero tail m = m
install_from start (suc rounds) tail m =
    install_from start rounds (tail + 1) (copy_block (m.lh.block tail) (start + tail + 1) m)

unfoldable pub install_trans : ℕ → Machine → Machine
unfolding install_from
install_trans start m = install_from start m.lh.n 0 m

unfoldable pub read_head : ℕ → Machine → Machine
read_head start m =
    let head = m.cache start in
    record m {
      lh = record {
        n = head 0;
        block = λ i. if ltb i (head 0) then head (i + 1) else m.lh.block i;
      };
    }

-- The words of the header block that `write_head` sets, and the words that it leaves.
unfoldable pub write_head : ℕ → Machine → Machine
unfolding bwrite
write_head start m =
    let old = m.cache start in
    let head : Block =
      λ i. if i == 0 then m.lh.n else if leb i m.lh.n then m.lh.block (i - 1) else old i in
    bwrite start (record m { cache = update m.cache start head })

abbrev pub clear : Machine → Machine
clear m = record m { lh = record (m.lh) { n = 0 } }

unfoldable pub recover_from_log : ℕ → Machine → Machine
unfolding read_head install_trans write_head
recover_from_log start m = write_head start (clear (install_trans start (read_head start m)))

-- The loop of `write_log` from `tail` on.
unfoldable pub write_log_from : ℕ → ℕ → ℕ → Machine → Machine
write_log_from start zero tail m = m
write_log_from start (suc rounds) tail m =
    write_log_from start rounds (tail + 1) (copy_block (start + tail + 1) (m.lh.block tail) m)

unfoldable pub write_log : ℕ → Machine → Machine
unfolding write_log_from
write_log start m = write_log_from start m.lh.n 0 m

unfoldable pub commit : ℕ → Machine → Machine
commit start m =
    if m.lh.n == 0
    then m
    else write_head start (clear (install_trans start (write_head start (write_log start m))))

-- The power fails and comes back for `power` more writes: the cache is empty, so `bread` gives what the
-- disk holds, and the memory is arbitrary.
abbrev pub reboot : ℕ → LogHeader → Machine → Machine
reboot power garbage m = record { cache = m.disk; disk = m.disk; power = power; lh = garbage }
