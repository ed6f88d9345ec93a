-- ===== src/Xv6/Bcache/Runs.antt =====
-- Runs of the buffer cache of bio.c: processes get buffers, change their flags and release them.
use os_project.Base.{
  ℕ, ◌+◌, ◌^◌, ◌<◌, ◌≡◌, inr, refl, Bool, true, some, List, [], ◌∷◌, ◌++◌, arith, update, sub32,
  All, length,
}
use mathlib.Core.Path.{subst}
use os_project.Xv6.Bcache.{Bcache, binit, bget, brelse}
use os_project.Xv6.Bcache.References.{Reference, Serves, IsOnce}
use os_project.Xv6.Bcache.Invariant.{System, flags, Inv, get-Inv, mark-Inv, release-Inv}

-- There are fewer references than a `uint` counts.
pub data Step : System → System → Type 0 where
  get :
      (y : System) (dev blockno s : ℕ) (c : Bcache)
      → length y.references + 1 < 2 ^ 32
      → bget dev blockno y.cache ≡ some (s, c)
      → Step y (record {
        cache = c;
        references = record { slot = s; dev = dev; blockno = blockno } ∷ y.references;
      })
  mark :
      (y : System) (before after : List Reference) (r : Reference) (valid dirty : Bool)
      → y.references ≡ before ++ (r ∷ after)
      → Step y (record y {
        cache = record (y.cache) {
          buf = update y.cache.buf r.slot (flags valid dirty (y.cache.buf r.slot));
        };
      })
  release :
      (y : System) (before after : List Reference) (r : Reference) (c : Bcache)
      → y.references ≡ before ++ (r ∷ after)
      → brelse true r.slot y.cache ≡ some c
      → Step y (record { cache = c; references = before ++ after })

pub data Reach : System → Type 0 where
  start : Reach (record { cache = binit; references = [] })
  next : {y z : System} → Reach y → Step y z → Reach z

-- One step of any process preserves the invariant.
Step-Inv : {y z : System} → Step y z → Inv y → Inv z
unfolding brelse
Step-Inv (get y dev blockno s c few e) v = get-Inv y dev blockno s c v few e
Step-Inv (mark y before after r valid dirty at) v = mark-Inv y before after r at v valid dirty
Step-Inv (release y before after r c at e) v =
    subst (λ c. Inv (record { cache = c; references = before ++ after })) (ground (arith, e))
      (release-Inv y before after r at v (sub32 (y.cache.buf r.slot).refcnt 1) refl)

binit-Inv : Inv (record { cache = binit; references = [] })
unfolding binit
binit-Inv = record {
  counted = λ s. refl;
  few = omega arith;
  served = tt;
  once = λ s t hs ht d b. inr (refl, refl);
}

Reach-Inv : {y : System} → Reach y → Inv y
Reach-Inv start = binit-Inv
Reach-Inv (next r st) = Step-Inv st (Reach-Inv r)

-- In every run with fewer than 2 ^ 32 references at a time, each reference is to a buffer of the
-- cache that still holds the block it was obtained for, and no two buffers of the cache hold the
-- same block, but for block 0 of device 0.
pub Reach-Serves : {y : System} → Reach y → All (Serves y.cache) y.references × IsOnce y.cache
Reach-Serves r = let v = Reach-Inv r in (v.served, v.once)
