-- ===== src/Xv6/Pipe.antt =====
-- Pipes: pipe.c of B22CS052/Helpful. A pass ends with the return of the call or with its sleep.
pub mod Laws
use os_project.Base.{
  ℕ, zero, suc, ◌+◌, ◌%◌, Bool, true, false, not, ◌&&◌, ◌||◌, List, [], ◌∷◌, ◌==◌, if◌then◌else◌,
  update, add32,
}

abbrev pub pipesize : ℕ
pipesize = 512

pub record Pipe : Type 0 where
  pub bytes : ℕ → ℕ
  pub nread : ℕ
  pub nwrite : ℕ
  pub readopen : Bool
  pub writeopen : Bool
  pub read_wakes : ℕ  -- the calls of `wakeup(&p->nread)`
  pub write_wakes : ℕ  -- the calls of `wakeup(&p->nwrite)`
  pub freed : Bool

-- The fields that `pipealloc` sets in a page from `kalloc`, whose bytes are arbitrary.
unfoldable pub pipealloc : (ℕ → ℕ) → Pipe
pipealloc page = record {
  bytes = page;
  nread = 0;
  nwrite = 0;
  readopen = true;
  writeopen = true;
  read_wakes = 0;
  write_wakes = 0;
  freed = false;
}

unfoldable pub pipeclose : Bool → Pipe → Pipe
pipeclose writable p =
    let p' : Pipe =
      if writable
      then record p { writeopen = false; read_wakes = p.read_wakes + 1 }
      else record p { readopen = false; write_wakes = p.write_wakes + 1 } in
    if not p'.readopen && not p'.writeopen then record p' { freed = true } else p'

-- How a pass ends: with a return, with -1, or asleep with the bytes that are still to be written.
pub data WriteEnd : Type 0 where
  written : WriteEnd
  refused : WriteEnd
  write_asleep : List ℕ → WriteEnd

-- `p->data[p->nwrite++ % PIPESIZE] = c`
unfoldable pub put_byte : ℕ → Pipe → Pipe
put_byte c p = record p {
  bytes = update p.bytes (p.nwrite % pipesize) (c % 256);
  nwrite = add32 p.nwrite 1;
}

abbrev pub wake_readers : Pipe → Pipe
wake_readers p = record p { read_wakes = p.read_wakes + 1 }

-- `pipewrite` on the bytes of `addr`, for a process that is or is not killed.
unfoldable pub pipewrite : Bool → List ℕ → Pipe → WriteEnd × Pipe
pipewrite killed [] p = (written, wake_readers p)
pipewrite killed (c ∷ cs) p =
    let more = pipewrite killed cs (put_byte c p) in
    if p.nwrite == add32 p.nread pipesize
    then (if not p.readopen || killed
        then (refused, p)
        else (write_asleep (c ∷ cs), wake_readers p))
    else more

-- The copy loop of `piperead`.
unfoldable pub copy_bytes : ℕ → Pipe → List ℕ × Pipe
copy_bytes zero p = ([], p)
copy_bytes (suc n) p =
    let more = copy_bytes n (record p { nread = add32 p.nread 1 }) in
    if p.nread == p.nwrite then ([], p) else (p.bytes (p.nread % pipesize) ∷ more.0, more.1)

pub data ReadEnd : Type 0 where
  returned : List ℕ → ReadEnd
  killed_reader : ReadEnd
  read_asleep : ReadEnd

-- `piperead` for `n` bytes.
unfoldable pub piperead : Bool → ℕ → Pipe → ReadEnd × Pipe
piperead killed n p =
    if p.nread == p.nwrite && p.writeopen
    then (if killed then (killed_reader, p) else (read_asleep, p))
    else (let (copied, p') = copy_bytes n p in
        (returned copied, record p' { write_wakes = p'.write_wakes + 1 }))
