-- ===== src/Xv6/Log/Ops/Runs.antt =====
-- Runs of the system calls that use the log: each may write `MAXOPBLOCKS` blocks between its `begin_op`
-- and its `end_op`.
use os_project.Base.{
  ℕ, suc, ◌+◌, ◌≤◌, ◌≡◌, Bool, true, false, some, List, [], ◌∷◌, ◌++◌, All, length, sum,
}
use os_project.Xv6.Log.{log_size, max_op_blocks}
use os_project.Xv6.Log.Ops.{Log, begin_op, log_write, end_op, end_commit}

-- The log, and for each call in progress the writes that it has left.
pub record System : Type 0 where
  pub log : Log
  pub left : List ℕ

pub data Step : System → System → Type 0 where
  begin :
      (s : System) (l : Log)
      → begin_op s.log ≡ some l
      → Step s (record { log = l; left = max_op_blocks ∷ s.left })
  write :
      (s : System) (l : Log) (before after : List ℕ) (k b : ℕ)
      → s.left ≡ before ++ (suc k ∷ after)
      → log_write b s.log ≡ some l
      → Step s (record { log = l; left = before ++ (k ∷ after) })
  end :
      (s : System) (l : Log) (do_commit : Bool) (before after : List ℕ) (k : ℕ)
      → s.left ≡ before ++ (k ∷ after)
      → end_op s.log ≡ some (l, do_commit)
      → Step s (record { log = l; left = before ++ after })
  committed : (s : System) → s.log.committing ≡ true → Step s (record s { log = end_commit s.log })

-- From an empty log with no call in progress.
pub data Reach (size : ℕ) : System → Type 0 where
  start :
      (s : System)
      → s.log.size ≡ size
      → (s.log.lh.n ≡ 0) × (s.log.outstanding ≡ 0) × (s.log.committing ≡ false) × (s.left ≡ [])
      → Reach size s
  next : {s t : System} → Reach size s → Step s t → Reach size t

record Inv (size : ℕ) (s : System) : Type 0 where
  sized : s.log.size ≡ size
  counted : s.log.outstanding ≡ length s.left
  few : All (λ k. k ≤ max_op_blocks) s.left
  room : s.log.lh.n + sum s.left ≤ log_size
  calls : s.log.outstanding ≤ log_size
  alone : s.log.committing ≡ true → s.left ≡ []
