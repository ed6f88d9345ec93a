-- ===== src/Xv6/Pipe/Laws.antt =====
-- pipewrite and piperead of B22CS052/Helpful/pipe.c on the queue of bytes in the pipe.
use os_project.Base.{
  ℕ, zero, suc, ◌+◌, ◌%◌, ◌^◌, ◌≤◌, ◌<◌, ◌≡◌, ◌≢◌, ◌⊎◌, inl, inr, refl, sym, ap, ap₂, ◌∙◌, Bool,
  true, false, not, ◌&&◌, ◌||◌, List, [], ◌∷◌, ◌++◌, ◌==◌, if◌then◌else◌, arith, All, length,
  update, add32, sub32, window_of, length-window_of, window_of-append, window_of-update, Apart,
  Bool-cases,
}
use mathlib.Core.List.{append_assoc}
use os_project.Xv6.Pipe.{
  Pipe, pipesize, put_byte, WriteEnd, written, refused, write_asleep, pipewrite, copy_bytes,
  ReadEnd, returned, killed_reader, read_asleep, piperead,
}

pub record IsValid (p : Pipe) : Type 0 where
  pub words : (p.nread < 2 ^ 32) × (p.nwrite < 2 ^ 32)
  pub fits : sub32 p.nwrite p.nread ≤ pipesize

-- The bytes in the pipe, the next to be read first.
abbrev pub queue : Pipe → List ℕ
queue p = window_of pipesize p.bytes p.nread (sub32 p.nwrite p.nread)

length-queue : (p : Pipe) → length (queue p) ≡ sub32 p.nwrite p.nread
length-queue p = length-window_of pipesize p.bytes p.nread (sub32 p.nwrite p.nread)

apart : Apart pipesize
apart i j hi hj h k = omega (arith, hi, hj, h, k)

module _ (c : ℕ) (p : Pipe) (v : IsValid p) (room : p.nwrite ≢ add32 p.nread pipesize) where
  put_byte-IsValid : IsValid (put_byte c p)
  unfolding put_byte
  put_byte-IsValid = omega (arith, v.words, v.fits, room)

  queue-put_byte : c < 256 → queue (put_byte c p) ≡ queue p ++ (c ∷ [])
  unfolding put_byte
  queue-put_byte small =
      let count : ℕ = sub32 p.nwrite p.nread in
      let more : sub32 (add32 p.nwrite 1) p.nread ≡ count + 1 =
        omega (arith, v.words, v.fits, room) in
      let here : p.nwrite ≡ add32 p.nread count = omega (arith, v.words) in
      let bytes : ℕ → ℕ = update p.bytes (p.nwrite % pipesize) (c % 256) in
      ap (window_of pipesize bytes p.nread) more
      ∙ window_of-append pipesize bytes p.nread p.nwrite count 1 (omega (arith, v.words)) here
      ∙ ap₂ ◌++◌
          (window_of-update pipesize apart p.bytes p.nread p.nwrite (c % 256) count v.words.0
            v.words.1 (omega arith) (omega (arith, v.words, v.fits, room)))
          (ap (λ b. b ∷ []) (ground (arith, small)))

-- How a write ends: all is in the pipe, or it is full and the rest waits with a sleeping writer or is
-- lost with a refused one.
abbrev pub Ends : Bool → Pipe → WriteEnd → List ℕ → Type 0
Ends killed p end rest =
    ((end ≡ written) × (rest ≡ []))
    ⊎ ((length (queue p) ≡ pipesize)
        × (rest ≢ [])
        × (end ≡ (if not p.readopen || killed then refused else write_asleep rest)))

-- A write appends bytes in order, all of them or as many as the pipe has room for: what the pipe
-- holds then and what is left over are what it held and what was to be written. It ends short
-- only when the pipe is full, with -1 if no reader is there or the writer is killed, asleep otherwise.
pub pipewrite_refines :
    (killed : Bool) (cs : List ℕ) (p : Pipe)
    → All (λ c. c < 256) cs
    → IsValid p
    → (rest : List ℕ) × IsValid (pipewrite killed cs p).1
      × (queue (pipewrite killed cs p).1 ++ rest ≡ queue p ++ cs)
      × Ends killed (pipewrite killed cs p).1 (pipewrite killed cs p).0 rest
unfolding pipewrite
pipewrite_refines killed [] p b v = ([], omega (arith, v), refl, inl (refl, refl))
pipewrite_refines killed (c ∷ cs) p b v = elim (Bool-cases (p.nwrite == add32 p.nread pipesize)) [
  | inl full ↦
      let all : length (queue p) ≡ pipesize = length-queue p ∙ ground (arith, full, v.words) in
      elim (Bool-cases (not p.readopen || killed)) [
        | inl out ↦ rw (full, out) (c ∷ cs, v, refl, inr (all, λ e. cc e, rw out refl))
        | inr out ↦
            rw (full, out)
              (c ∷ cs, omega (arith, v.words, v.fits), refl, inr (all, λ e. cc e, rw out refl))
      ]
  | inr room ↦
      let ne : p.nwrite ≢ add32 p.nread pipesize = ground (arith, room) in
      let (rest, valid, same, ends) =
        pipewrite_refines killed cs (put_byte c p) b.1 (put_byte-IsValid c p v ne) in
      rw room (
        rest,
        valid,
        same ∙ ap (λ l. l ++ cs) (queue-put_byte c p v ne b.0) ∙ append_assoc (queue p) (c ∷ []) cs,
        ends,
      )
]

-- The first byte, and the pipe behind it.
abbrev advance : Pipe → Pipe
advance p = record p { nread = add32 p.nread 1 }

advance-IsValid : (p : Pipe) → IsValid p → p.nread ≢ p.nwrite → IsValid (advance p)
advance-IsValid p v ne = omega (arith, v.words, v.fits, ne)

queue-cons :
    (p : Pipe)
    → IsValid p
    → p.nread ≢ p.nwrite
    → queue p ≡ p.bytes (p.nread % pipesize) ∷ queue (advance p)
queue-cons p v ne =
    let k : sub32 p.nwrite p.nread ≡ suc (sub32 p.nwrite (add32 p.nread 1)) =
      omega (arith, v.words, ne) in
    ap (window_of pipesize p.bytes p.nread) k

queue-nil : (p : Pipe) → p.nread ≡ p.nwrite → queue p ≡ []
queue-nil p e =
    let none_left : sub32 p.nwrite p.nread ≡ 0 = omega (arith, e) in
    ap (window_of pipesize p.bytes p.nread) none_left

-- The bytes that are copied, and what stays, are the queue; as many are copied as are wanted and there.
copy_bytes_lem :
    (n : ℕ) (p : Pipe)
    → IsValid p
    → IsValid (copy_bytes n p).1
      × ((copy_bytes n p).0 ++ queue (copy_bytes n p).1 ≡ queue p)
      × ((length (copy_bytes n p).0 ≡ n)
          ⊎ ((length (copy_bytes n p).0 < n) × (queue (copy_bytes n p).1 ≡ [])))
unfolding copy_bytes
copy_bytes_lem zero p v = (v, refl, inl refl)
copy_bytes_lem (suc n) p v = elim (Bool-cases (p.nread == p.nwrite)) [
  | inl none_left ↦
      rw none_left (v, refl, inr (omega arith, queue-nil p (ground (arith, none_left))))
  | inr some_left ↦
      let ne : p.nread ≢ p.nwrite = ground (arith, some_left) in
      let (valid, same, taken) = copy_bytes_lem n (advance p) (advance-IsValid p v ne) in
      rw some_left (
        valid,
        ap (λ l. p.bytes (p.nread % pipesize) ∷ l) same ∙ sym (queue-cons p v ne),
        ground (arith, taken),
      )
]

-- How a read of `n` bytes ends. It sleeps, or gives -1 to a killed reader, only on an empty pipe that
-- a writer has open; else it returns the front of the queue, `n` bytes or all that there are.
abbrev pub Reads : Bool → ℕ → Pipe → ReadEnd → Pipe → Type 0
Reads killed n p (returned bytes) p' =
    (bytes ++ queue p' ≡ queue p)
    × ((length bytes ≡ n) ⊎ ((length bytes < n) × (queue p' ≡ [])))
    × ((queue p ≢ []) ⊎ (p.writeopen ≡ false))
Reads killed n p killed_reader p' =
    (killed ≡ true) × (queue p ≡ []) × (p.writeopen ≡ true) × (p' ≡ p)
Reads killed n p read_asleep p' =
    (killed ≡ false) × (queue p ≡ []) × (p.writeopen ≡ true) × (p' ≡ p)

not_waiting :
    (p : Pipe)
    → IsValid p
    → (p.nread == p.nwrite && p.writeopen) ≡ false
    → (queue p ≢ []) ⊎ (p.writeopen ≡ false)
not_waiting p v go = elim (Bool-cases p.writeopen) [
  | inl w ↦
      let ne : p.nread ≢ p.nwrite = ground (arith, go, w) in inl (λ e. cc (e, queue-cons p v ne))
  | inr w ↦ inr w
]

-- A read takes bytes from the front, in order, `n` or all that there are; what it leaves is the rest.
-- It returns no byte to a reader that wants some only at the end of the file: when the pipe is empty
-- and no writer has it open. With a writer it waits for the first byte.
pub piperead_refines :
    (killed : Bool) (n : ℕ) (p : Pipe)
    → IsValid p
    → IsValid (piperead killed n p).1
      × Reads killed n p (piperead killed n p).0 (piperead killed n p).1
unfolding piperead
piperead_refines killed n p v =
    let (valid, same, taken) = copy_bytes_lem n p v in
    elim (Bool-cases (p.nread == p.nwrite && p.writeopen)) [
      | inl wait ↦
          let empty : queue p ≡ [] = queue-nil p (ground (arith, wait)) in
          let open_end : p.writeopen ≡ true = ground (arith, wait) in
          elim (Bool-cases killed) [
            | inl k ↦ rw (wait, k) (v, (refl, empty, open_end, refl))
            | inr k ↦ rw (wait, k) (v, (refl, empty, open_end, refl))
          ]
      | inr go ↦ rw go (omega (arith, valid), (same, taken, not_waiting p v go))
    ]
