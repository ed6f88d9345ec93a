-- ===== src/Console/Reader/Laws.antt =====
-- `consoleread` of B22CS052/Helpful/console.c as a function of the bytes that are ready.
use os_project.Base.{
  ℕ, zero, suc, ◌%◌, ◌≡◌, ◌≢◌, refl, ap, Bool, List, [], ◌∷◌, ◌==◌, ltb, if◌then◌else◌, arith,
  sub32, add32, newline, Bool-cases, inl, inr,
}
use os_project.Console.Ring.{Ring, input_buf}
use os_project.Console.Ring.View.{IsValid, ready, line, window}
use os_project.Console.Reader.{Status, finished, interrupted, asleep, Pass, read_bytes, consoleread}

-- What is taken and what is left.
pub record Share : Type 0 where
  pub taken : List ℕ
  pub left : List ℕ
  pub end : Status

-- Bytes up to a newline, which is taken, or a Ctrl+D, which ends the input: it is left for the next
-- read unless it comes first.
abbrev pub share : Bool → ℕ → ℕ → List ℕ → Share
share killed target zero l = record { taken = []; left = l; end = finished }
share killed target (suc n) [] = record {
  taken = [];
  left = [];
  end = if killed then interrupted else asleep (suc n);
}
share killed target (suc n) (c ∷ l) =
    let more = share killed target n l in
    if c == 4
    then record { taken = []; left = if ltb (suc n) target then c ∷ l else l; end = finished }
    else if c == newline
    then record { taken = c ∷ []; left = l; end = finished }
    else record more { taken = c ∷ more.taken }

-- What a pass has to do with the share.
pub record Reads (s : Ring) (p : Pass) (q : Share) : Type 0 where
  pub valid : IsValid p.ring
  pub bytes : p.bytes ≡ q.taken
  pub left : ready p.ring ≡ q.left
  pub edited : line p.ring ≡ line s
  pub status : p.status ≡ q.end

-- The first byte that is ready, and the buffer behind it.
abbrev first : Ring → ℕ
first s = s.buf (s.r % input_buf)

abbrev advance : Ring → Ring
advance s = record s { r = add32 s.r 1 }

ready-cons : (s : Ring) → IsValid s → s.r ≢ s.w → ready s ≡ first s ∷ ready (advance s)
ready-cons s v ne =
    let k : sub32 s.w s.r ≡ suc (sub32 s.w (add32 s.r 1)) = omega (arith, v.words, ne) in
    ap (window s.buf s.r) k

ready-nil : (s : Ring) → s.r ≡ s.w → ready s ≡ []
ready-nil s e =
    let none_left : sub32 s.w s.r ≡ 0 = omega (arith, e) in ap (window s.buf s.r) none_left

advance-IsValid : (s : Ring) → IsValid s → s.r ≢ s.w → IsValid (advance s)
advance-IsValid s v ne = omega (arith, v.words, v.fits, v.order, ne)

-- `input.r--` after `input.r++`.
put_back : (s : Ring) → IsValid s → record s { r = sub32 (add32 s.r 1) 1 } ≡ s
put_back s v =
    let back : sub32 (add32 s.r 1) 1 ≡ s.r = omega (arith, v.words) in
    ap (λ r. record s { r = r }) back

pub read_bytes-Reads :
    (killed : Bool) (target n : ℕ) (s : Ring)
    → IsValid s
    → Reads s (read_bytes killed target n s) (share killed target n (ready s))
unfolding read_bytes
read_bytes-Reads killed target zero s v = record {
  valid = v;
  bytes = refl;
  left = refl;
  edited = refl;
  status = refl;
}
read_bytes-Reads killed target (suc n) s v = elim (Bool-cases (s.r == s.w)) [
  | inl none_left ↦
      rw (none_left, ready-nil s (ground arith))
        (record {
          valid = v;
          bytes = refl;
          left = ready-nil s (ground arith);
          edited = refl;
          status = refl;
        })
  | inr some_left ↦
      let ne : s.r ≢ s.w = ground arith in
      let rest = read_bytes-Reads killed target n (advance s) (advance-IsValid s v ne) in
      rw (some_left, ready-cons s v ne)
        (elim (Bool-cases (first s == 4)) [
          | inl eof ↦ rw eof (elim (Bool-cases (ltb (suc n) target)) [
            | inl later ↦
                rw (later, put_back s v)
                  (record {
                    valid = v;
                    bytes = refl;
                    left = ready-cons s v ne;
                    edited = refl;
                    status = refl;
                  })
            | inr now ↦ rw now (record {
              valid = advance-IsValid s v ne;
              bytes = refl;
              left = refl;
              edited = refl;
              status = refl;
            })
          ])
          | inr c ↦ elim (Bool-cases (first s == newline)) [
            | inl nl ↦
                rw (c, nl)
                  (record {
                    valid = advance-IsValid s v ne;
                    bytes = refl;
                    left = refl;
                    edited = refl;
                    status = refl;
                  })
            | inr on ↦
                rw (c, on)
                  (record {
                    valid = rest.valid;
                    bytes = ap (λ l. first s ∷ l) rest.bytes;
                    left = rest.left;
                    edited = rest.edited;
                    status = rest.status;
                  })
          ]
        ])
]

-- A read gives its share of the ready bytes and leaves the rest ready: up to the first newline, which
-- is taken, or to a Ctrl+D; it sleeps only when no byte is ready. The typed line is not touched.
pub consoleread_refines :
    (killed : Bool) (n : ℕ) (s : Ring)
    → IsValid s
    → Reads s (consoleread killed n s) (share killed n n (ready s))
unfolding consoleread
consoleread_refines killed n s v = read_bytes-Reads killed n n s v
