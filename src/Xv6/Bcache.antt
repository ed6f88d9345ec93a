-- ===== src/Xv6/Bcache.antt =====
-- The buffer cache: `binit`, `bget` and `brelse` of bio.c, B22CS052/Helpful. A buffer is its index in
-- `bcache.buf`; the linked list is the list of these indices from `head.next` on. The spin lock is
-- left out, since each operation holds it throughout.
pub mod Search
pub mod References
pub mod Invariant
pub mod Runs
use os_project.Base.{
  ℕ, zero, suc, ◌+◌, ◌-◌, ◌≡◌, Bool, true, false, not, ◌&&◌, Option, none, some, List, [], ◌∷◌,
  ◌==◌, if◌then◌else◌, update, add32, sub32,
}
use os_project.Xv6.Log.{max_op_blocks}

abbrev pub nbuf : ℕ
nbuf = 30

-- The fields of a `struct buf` that the cache keeps; `valid` and `dirty` are its flags.
pub record Buf : Type 0 where
  pub dev : ℕ
  pub blockno : ℕ
  pub refcnt : ℕ
  pub valid : Bool
  pub dirty : Bool

pub record Bcache : Type 0 where
  pub buf : ℕ → Buf
  pub order : List ℕ

-- The loop of `binit` puts each buffer at the front.
unfoldable pub link_all : ℕ → List ℕ
link_all zero = []
link_all (suc n) = n ∷ link_all n

unfoldable pub binit : Bcache
unfolding link_all
binit = record {
  buf = λ s. record { dev = 0; blockno = 0; refcnt = 0; valid = false; dirty = false };
  order = link_all nbuf;
}

unfoldable pub is_block : ℕ → ℕ → Buf → Bool
is_block dev blockno b = b.dev == dev && b.blockno == blockno

unfoldable pub find_cached : ℕ → ℕ → (ℕ → Buf) → List ℕ → Option ℕ
find_cached dev blockno buf [] = none
find_cached dev blockno buf (s ∷ ss) =
    let later = find_cached dev blockno buf ss in
    if is_block dev blockno (buf s) then some s else later

unfoldable pub is_unused : Buf → Bool
is_unused b = b.refcnt == 0 && not b.dirty

-- The search for an unused buffer, from the end of the list.
unfoldable pub find_unused : (ℕ → Buf) → List ℕ → Option ℕ
find_unused buf [] = none
find_unused buf (s ∷ ss) = elim (find_unused buf ss) [
  | some t ↦ some t
  | none ↦ if is_unused (buf s) then some s else none
]

abbrev pub used : Buf → Buf
used b = record b { refcnt = add32 b.refcnt 1 }

abbrev pub recycled : ℕ → ℕ → Buf
recycled dev blockno = record {
  dev = dev;
  blockno = blockno;
  refcnt = 1;
  valid = false;
  dirty = false;
}

-- The buffer, whose sleep lock is acquired next. `none` is a panic.
unfoldable pub bget : ℕ → ℕ → Bcache → Option (ℕ × Bcache)
unfolding find_cached find_unused
bget dev blockno c = elim (find_cached dev blockno c.buf c.order) [
  | some s ↦ some (s, record c { buf = update c.buf s (used (c.buf s)) })
  | none ↦ elim (find_unused c.buf c.order) [
    | some s ↦ some (s, record c { buf = update c.buf s (recycled dev blockno) })
    | none ↦ none
  ]
]

unfoldable pub unlink : ℕ → List ℕ → List ℕ
unlink s [] = []
unlink s (t ∷ ts) = let rest = unlink s ts in if t == s then rest else t ∷ rest

-- `held` is what `holdingsleep` gives. `none` is a panic.
unfoldable pub brelse : Bool → ℕ → Bcache → Option Bcache
unfolding unlink
brelse held s c =
    let n = sub32 (c.buf s).refcnt 1 in
    if held
    then some (record {
      buf = update c.buf s (record (c.buf s) { refcnt = n });
      order = if n == 0 then s ∷ unlink s c.order else c.order;
    })
    else none
