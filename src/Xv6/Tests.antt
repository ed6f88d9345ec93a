-- ===== src/Xv6/Tests.antt =====
-- Memory and pipes on concrete states: tests, and the theorems at inputs that meet their hypotheses.
use os_project.Base.{
  ℕ, ◌+◌, ◌<◌, ◌≡◌, ◌⊎◌, inl, inr, refl, true, false, none, some, List, [], ◌∷◌, ◌++◌, ◌==◌,
  if◌then◌else◌, All, IsDistinct, update, arith, codes,
}
use os_project.Xv6.Bcache.{
  Bcache, link_all, binit, is_block, find_cached, is_unused, find_unused, recycled, bget,
}
use os_project.Xv6.Bcache.References as References
use os_project.Xv6.Bcache.References.{IsOnce}
use os_project.Xv6.Bcache.Invariant as Blocks
use os_project.Xv6.Bcache.Runs as BlockRuns
use os_project.Xv6.Bcache.Runs.{Reach-Serves}
use os_project.Xv6.Log.{LogHeader, Machine, recover_from_log, commit, reboot}
use os_project.Xv6.Log.Content.{IsHome}
use os_project.Xv6.Log.Commit.{Ready, recoveries, commit_atomic, commit_completes}
use os_project.Xv6.Log.Ops.{Log, add_entry, log_write}
use os_project.Xv6.Log.Ops.Runs.{Reach, start, next}
use os_project.Xv6.Pages.{Kmem, kalloc}
use os_project.Xv6.Pages.Laws as Pages
use os_project.Xv6.Pages.Laws.{IsPage}
use os_project.Xv6.Pages.Runs as Runs
use os_project.Xv6.Pages.Runs.{kalloc_fresh}
use os_project.Xv6.Locks.Cli.{Cpu, nothing, pair, run, Leaves, run-Leaves}
use os_project.Xv6.Locks.Spin.{initlock, interleave}
use os_project.Xv6.Locks.Spin.Safety as Spin
use os_project.Xv6.Locks.Spin.Safety.{interleave-Safe}
use os_project.Xv6.Locks.Sleep.{initsleeplock, acts, Serves, acts-Serves}
use mathlib.Core.Logic.{◌↔◌}
use os_project.Xv6.Memory.{copy_down, memcmp, memmove}
use os_project.Xv6.Memory.Laws.{with_block, memmove_lem, memcmp_iff}
use os_project.Xv6.Path.{Inodes, namex, walk, skipelem, skip_slashes, span}
use os_project.Xv6.Path.Laws.{elements, is_absolute, follow, namex-follow}
use os_project.Xv6.Pipe.{Pipe, pipealloc, put_byte, pipewrite, copy_bytes, returned, piperead}
use os_project.Xv6.Pipe.Laws.{IsValid, queue, Ends, Reads, pipewrite_refines, piperead_refines}

abbrev ramp : ℕ → ℕ
ramp i = i

-- A block that moves up by one over itself.
moved : memmove 11 10 3 ramp 13 ≡ 12
unfolding memmove copy_down
moved = refl

memmove_lem_example : memmove 11 10 3 ramp 13 ≡ with_block 11 3 (λ k. ramp (10 + k)) ramp 13
memmove_lem_example = memmove_lem 11 10 3 ramp 13

abbrev zeros : ℕ → ℕ
zeros i = 0

memcmp_iff_example : (memcmp 0 9 4 zeros ≡ 0) ↔ ((k : ℕ) → k < 4 → zeros (0 + k) ≡ zeros (9 + k))
memcmp_iff_example = memcmp_iff 0 9 4 zeros (λ i. omega arith)

abbrev empty : Pipe
empty = pipealloc zeros

empty-IsValid : IsValid empty
unfolding pipealloc
empty-IsValid = omega arith

abbrev full : Pipe
full = record {
  bytes = zeros;
  nread = 0;
  nwrite = 512;
  readopen = true;
  writeopen = true;
  read_wakes = 0;
  write_wakes = 0;
  freed = false;
}

full-IsValid : IsValid full
full-IsValid = omega arith

hello : piperead false 2 (pipewrite false (codes "hi") empty).1 ≡ (
  returned (codes "hi"),
  record empty {
    bytes = (put_byte b'i' (put_byte b'h' empty)).bytes;
    nread = 2;
    nwrite = 2;
    read_wakes = 1;
    write_wakes = 1;
  },
)
unfolding piperead pipewrite copy_bytes put_byte pipealloc
hello = refl

pipewrite_refines_example :
    (rest : List ℕ) × IsValid (pipewrite false (codes "hi") full).1
    × (queue (pipewrite false (codes "hi") full).1 ++ rest ≡ queue full ++ codes "hi")
    × Ends false (pipewrite false (codes "hi") full).1 (pipewrite false (codes "hi") full).0 rest
pipewrite_refines_example =
    pipewrite_refines false (codes "hi") full (omega arith, (omega arith, tt)) full-IsValid

piperead_refines_example :
    IsValid (piperead false 3 full).1
    × Reads false 3 full (piperead false 3 full).0 (piperead false 3 full).1
piperead_refines_example = piperead_refines false 3 full full-IsValid

-- A log at block 2 with a transaction that writes block 50.
abbrev machine : ℕ → Machine
machine power = record {
  cache = λ x i. if x == 50 then 7 else 0;
  disk = λ x i. 0;
  power = power;
  lh = record { n = 1; block = λ i. 50 };
}

machine-Ready : (power : ℕ) → Ready 2 (machine power)
machine-Ready power = record {
  valid = record { fits = omega arith; homes = λ i l. inr (omega arith) };
  empty = refl;
  cached = λ x h other. ground (arith, other 0 (omega arith));
}

abbrev garbage : LogHeader
garbage = record { n = 9; block = λ i. 0 }

-- The power fails behind the header, and again in the first recovery.
commit_atomic_example :
    let d =
      (recover_from_log 2
        (reboot 30 garbage (recoveries 2 ((0, garbage) ∷ []) (commit 2 (machine 2))))).disk in
    ((x : ℕ) → IsHome 2 x → d x ≡ (machine 2).disk x)
    ⊎ ((x : ℕ) → IsHome 2 x → d x ≡ (machine 2).cache x)
commit_atomic_example =
    commit_atomic 2 (machine 2) ((0, garbage) ∷ []) 30 garbage (machine-Ready 2) (omega arith)

commit_completes_example :
    ((commit 2 (machine 9)).disk 2 0 ≡ 0)
    × ((x : ℕ) → IsHome 2 x → (commit 2 (machine 9)).disk x ≡ (machine 9).cache x)
commit_completes_example = commit_completes 2 (machine 9) (machine-Ready 9) (omega arith)

abbrev log : Log
log = record {
  lh = record { n = 0; block = zeros };
  size = 30;
  outstanding = 0;
  committing = false;
}

abbrev log_1 : Log
log_1 = record log { outstanding = 1 }

abbrev log_2 : Log
log_2 = record log_1 { lh = record { n = 1; block = λ i. if 0 == i then 60 else 0 } }

log_write_60 : log_write 60 log_1 ≡ some log_2
unfolding log_write add_entry
log_write_60 = refl

-- Two free pages.
abbrev pages : List ℕ
pages = 0x80401000 ∷ 0x80400000 ∷ []

abbrev kmem : Kmem
kmem = record { word = λ a. if a == 0x80400000 then 0x80401000 else 0; freelist = 0x80400000 }

abbrev kmem_1 : Kmem
kmem_1 = record kmem { freelist = 0x80401000 }

kmem-Holds : Pages.Holds 0x80300000 kmem (0x80400000 ∷ 0x80401000 ∷ [])
kmem-Holds = record {
  chain = (refl, (refl, refl));
  pages = (
    (refl, omega arith, omega arith, omega arith),
    ((refl, omega arith, omega arith, omega arith), tt),
  );
  distinct = (((λ e. omega (arith, e)), tt), (tt, tt));
}

given_1 : kalloc kmem ≡ (0x80400000, kmem_1)
unfolding kalloc
given_1 = refl

given_2 : kalloc kmem_1 ≡ (0x80401000, record kmem_1 { freelist = 0 })
unfolding kalloc
given_2 = refl

abbrev memory : Runs.System
memory = record { kmem = kmem; owned = [] }

abbrev one_page : Runs.System
one_page = record { kmem = kmem_1; owned = 0x80400000 ∷ [] }

one_page-Reach : Runs.Reach 0x80300000 one_page
one_page-Reach =
    Runs.next (Runs.start memory (0x80400000 ∷ 0x80401000 ∷ []) kmem-Holds refl)
      (Runs.give memory 0x80400000 kmem_1 given_1 (omega arith))

kalloc_fresh_example : All (IsPage 0x80300000) pages × IsDistinct pages
kalloc_fresh_example =
    kalloc_fresh 0x80401000 (record kmem_1 { freelist = 0 }) one_page-Reach given_2 (omega arith)

interleave-Safe_example : Spin.Safe (interleave (0 ∷ 1 ∷ 0 ∷ 1 ∷ 1 ∷ 0 ∷ []) initlock)
interleave-Safe_example = interleave-Safe (0 ∷ 1 ∷ 0 ∷ 1 ∷ 1 ∷ 0 ∷ [])

acts-Serves_example : Serves (acts (1 ∷ 2 ∷ 1 ∷ 2 ∷ []) initsleeplock)
acts-Serves_example = acts-Serves (1 ∷ 2 ∷ 1 ∷ 2 ∷ [])

abbrev cpu : Cpu
cpu = record { interrupts = true; ncli = 0; intena = false }

run-Leaves_example :
    (c' : Cpu) × (run (pair (pair nothing nothing) nothing) cpu ≡ some c') × Leaves cpu c'
run-Leaves_example = run-Leaves (pair (pair nothing nothing) nothing) cpu (inl refl)

-- A cache of which block 7 of device 1 has been obtained.
abbrev cache_1 : Bcache
cache_1 = record binit { buf = update binit.buf 0 (recycled 1 7) }

got_7 : bget 1 7 binit ≡ some (0, cache_1)
unfolding bget binit find_cached find_unused link_all is_block is_unused
got_7 = refl

abbrev cached : Blocks.System
cached = record { cache = cache_1; references = record { slot = 0; dev = 1; blockno = 7 } ∷ [] }

Reach-Serves_example : All (References.Serves cache_1) cached.references × IsOnce cache_1
Reach-Serves_example = Reach-Serves (
    BlockRuns.next BlockRuns.start
      (BlockRuns.get (record { cache = binit; references = [] }) 1 7 0 cache_1 (omega arith) got_7))

abbrev no_pages : Kmem
no_pages = record { word = zeros; freelist = 0 }

-- Directory 1 has the name "a", inode 5.
abbrev inodes : Inodes
inodes = record { is_dir = λ ip. ip == 1; dirlookup = λ ip name. if ip == 1 then some 5 else none }

parent_of_a : namex inodes 1 2 true (codes "//a/") ≡ some (1, codes "a")
unfolding namex walk skipelem skip_slashes span
parent_of_a = refl

namex-follow_example :
    namex inodes 1 2 false (codes "//a/")
    ≡ follow inodes false []
        (if is_absolute (codes "//a/") then 1 else 2)
        (elements [] (codes "//a/"))
namex-follow_example = namex-follow inodes 1 2 false (codes "//a/")
