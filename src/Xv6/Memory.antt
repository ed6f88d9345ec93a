-- ===== src/Xv6/Memory.antt =====
-- The bytes of string.c, B22CS052/Helpful: memory is a function of the address, and no block runs
-- past the last address.
pub mod Laws
use os_project.Base.{
  ℕ, zero, suc, ◌+◌, ◌*◌, ◌/◌, ◌%◌, ◌^◌, Bool, true, false, ◌&&◌, ◌==◌, ltb, leb, if◌then◌else◌,
  update, sub32,
}

-- `stosb` of x86.h
unfoldable pub stosb : ℕ → ℕ → ℕ → (ℕ → ℕ) → ℕ → ℕ
stosb dst c zero mem = mem
stosb dst c (suc n) mem = stosb (dst + 1) c n (update mem dst (c % 256))

-- `stosl` of x86.h: the four bytes of a word, the lowest first.
unfoldable pub stosl : ℕ → ℕ → ℕ → (ℕ → ℕ) → ℕ → ℕ
stosl dst w zero mem = mem
stosl dst w (suc n) mem = stosl (dst + 4) w n (
    update
      (update (update (update mem dst (w % 256)) (dst + 1) (w / 2 ^ 8 % 256)) (dst + 2)
        (w / 2 ^ 16 % 256))
      (dst + 3) (w / 2 ^ 24 % 256))

-- The bytes `c & 0xFF` of a word side by side.
unfoldable pub memset : ℕ → ℕ → ℕ → (ℕ → ℕ) → ℕ → ℕ
memset dst c n mem =
    if dst % 4 == 0 && n % 4 == 0
    then (let b = c % 256 in stosl dst (b * 2 ^ 24 + b * 2 ^ 16 + b * 2 ^ 8 + b) (n / 4) mem)
    else stosb dst c n mem

unfoldable pub memcmp : ℕ → ℕ → ℕ → (ℕ → ℕ) → ℕ
memcmp v₁ v₂ zero mem = 0
memcmp v₁ v₂ (suc n) mem =
    let more = memcmp (v₁ + 1) (v₂ + 1) n mem in
    if mem v₁ == mem v₂ then more else sub32 (mem v₁) (mem v₂)

-- `*d++ = *s++`, n times.
unfoldable pub copy_up : ℕ → ℕ → ℕ → (ℕ → ℕ) → ℕ → ℕ
copy_up d s zero mem = mem
copy_up d s (suc n) mem = copy_up (d + 1) (s + 1) n (update mem d (mem s))

-- `*--d = *--s`, n times, from `d + n` and `s + n`.
unfoldable pub copy_down : ℕ → ℕ → ℕ → (ℕ → ℕ) → ℕ → ℕ
copy_down d s zero mem = mem
copy_down d s (suc n) mem = copy_down d s n (update mem (d + n) (mem (s + n)))

unfoldable pub memmove : ℕ → ℕ → ℕ → (ℕ → ℕ) → ℕ → ℕ
memmove dst src n mem =
    if ltb src dst && ltb dst (src + n) then copy_down dst src n mem else copy_up dst src n mem
