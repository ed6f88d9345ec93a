-- ===== src/Console/Editor/Refine.antt =====
-- `consoleintr` of B22CS039/console.c against an ideal line discipline on two lists.
use os_project.Base.{
  ℕ, ◌+◌, ◌%◌, ◌<◌, ◌≡◌, ◌≢◌, refl, sym, ap, ap₂, ◌∙◌, Bool, false, not, List, [], ◌∷◌, ◌++◌, ◌==◌,
  ltb, ◌&&◌, ◌||◌, if◌then◌else◌, arith, All, All-append, but_last, but_last-append, length, sub32,
  newline, Bool-cases, inl, inr,
}
use os_project.Console.Editor.{
  Console, erase, kill_line, rub_out, end_line, insert, handle, drain, consoleintr,
}
use os_project.Console.Editor.Kill.{IsLine, last_of_line, kill_line_lem}
use os_project.Console.Device.{consputc}
use os_project.Console.Ring.{Ring, has_room, is_full, append, last, drop_last, commit}
use os_project.Console.Ring.View.{
  IsValid, ready, line, window, length-window, sizes, append-IsValid, ready-append, line-append,
  drop_last-IsValid, line-drop_last, commit-IsValid, ready-commit, line-commit,
}

-- The ideal discipline: the bytes that may be read, and the line that is typed.
pub record Lines : Type 0 where
  pub done : List ℕ
  pub typed : List ℕ

-- A character at the end of the typed line; newline, Ctrl+D and the 128th byte hand the line over.
abbrev pub accept : ℕ → Lines → Lines
accept c l =
    let typed = l.typed ++ (c ∷ []) in
    if c == newline || (c == 4 || length l.done + length typed == 128)
    then record { done = l.done ++ typed; typed = [] }
    else record l { typed = typed }

abbrev pub edit : ℕ → Lines → Lines
edit c l =
    if c == 16
    then l
    else if c == 21
    then record l { typed = [] }
    else if c == 8 || c == 127
    then record l { typed = but_last l.typed }
    else if not (c == 0) && ltb (length l.done + length l.typed) 128
    then accept (if c == 13 then newline else c) l
    else l

abbrev pub view : Console → Lines
view t = record { done = ready t.ring; typed = line t.ring }

-- The indices are in order, and no newline stands in the typed line.
pub record Inv (t : Console) : Type 0 where
  pub valid : IsValid t.ring
  pub no_newline : IsLine (line t.ring)

-- What one step does: it acts as `f` on the lists and keeps the invariant.
record Acts (f : Lines → Lines) (t t' : Console) : Type 0 where
  inv : Inv t'
  same : view t' ≡ f (view t)

total_length : (s : Ring) → IsValid s → length (ready s) + length (line s) ≡ sub32 s.e s.r
total_length s v = omega (
  arith,
  length-window s.buf s.r (sub32 s.w s.r),
  length-window s.buf s.w (sub32 s.e s.w),
  sizes s v,
)

line_of_none : (s : Ring) → s.e ≡ s.w → line s ≡ []
line_of_none s e =
    let none_left : sub32 s.e s.w ≡ 0 = omega (arith, e) in ap (window s.buf s.w) none_left

kill_line-Acts :
    (t : Console)
    → Inv t
    → Acts (λ l. record l { typed = [] }) t (kill_line (sub32 t.ring.e t.ring.w) t)
kill_line-Acts t v =
    let s : Ring = record (t.ring) { e = t.ring.w } in
    let empty : line s ≡ [] = line_of_none s refl in
    rw (kill_line_lem (sub32 t.ring.e t.ring.w) t v.valid v.no_newline refl) (record {
      inv = record { valid = omega (arith, v.valid); no_newline = rw empty tt };
      same = ap (λ l. record { done = ready t.ring; typed = l }) empty;
    })

rub_out-Acts :
    (t : Console) → Inv t → Acts (λ l. record l { typed = but_last l.typed }) t (rub_out t)
unfolding rub_out erase drop_last
rub_out-Acts t v = elim (Bool-cases (t.ring.e == t.ring.w)) [
  | inl none_left ↦
      let empty : line t.ring ≡ [] = line_of_none t.ring (ground arith) in
      rw none_left (record {
        inv = v;
        same =
            ap (λ l. record { done = ready t.ring; typed = l }) (empty ∙ sym (ap but_last empty));
      })
  | inr some_left ↦
      let ne : t.ring.e ≢ t.ring.w = ground arith in
      rw some_left (record {
        inv = record {
          valid = drop_last-IsValid t.ring v.valid ne;
          no_newline = (last_of_line t.ring v.valid ne v.no_newline).1;
        };
        same =
            ap (λ l. record { done = ready t.ring; typed = l })
              (sym (
                ap but_last (line-drop_last t.ring v.valid ne)
                ∙ but_last-append (line (drop_last t.ring)) (last t.ring)));
      })
]

-- The test for a full buffer is that the two lists hold 128 bytes.
is_full-eq : (s : Ring) → IsValid s → is_full s ≡ (length (ready s) + length (line s) == 128)
is_full-eq s v =
    let total : length (ready s) + length (line s) ≡ sub32 s.e s.r = total_length s v in
    ground (arith, v.words)

-- The typed line has got the character `c`; the line may be at its end.
module _ (c : ℕ) (t u : Console) (v : Inv t) (valid : IsValid u.ring)
    (kept : ready u.ring ≡ ready t.ring) (longer : line u.ring ≡ line t.ring ++ (c ∷ [])) where
  abbrev ends : Bool
  ends = c == newline || (c == 4 || is_full u.ring)

  abbrev should_end : Bool
  should_end =
      c == newline || (c == 4 || length (ready t.ring) + length (line t.ring ++ (c ∷ [])) == 128)

  ends-eq : ends ≡ should_end
  ends-eq =
      ap (λ b. c == newline || (c == 4 || b))
        (is_full-eq u.ring valid ∙ ap₂ (λ xs ys. length xs + length ys == 128) kept longer)

  handed_over : Inv (record u { ring = commit u.ring; wakes = u.wakes + 1 })
  handed_over = record {
    valid = commit-IsValid u.ring valid;
    no_newline = rw (line-commit u.ring) tt;
  }

  end_line-Acts : Acts (accept c) t (end_line c u)
  unfolding end_line
  end_line-Acts = elim (Bool-cases ends) [
    | inl y ↦ rw y (record {
      inv = handed_over;
      same = rw (sym ends-eq ∙ y) (
          ap₂ (λ xs ys. record { done = xs; typed = ys })
            (ready-commit u.ring valid ∙ ap₂ ◌++◌ kept longer) (line-commit u.ring));
    })
    | inr y ↦ rw y (record {
      inv = record {
        valid = valid;
        no_newline =
            rw longer
              (All-append (λ b. b ≢ newline) (line t.ring) (c ∷ []) v.no_newline (ground arith));
      };
      same = rw (sym ends-eq ∙ y) (ap₂ (λ xs ys. record { done = xs; typed = ys }) kept longer);
    })
  ]

-- The default branch is the discipline's default.
abbrev default : ℕ → Lines → Lines
default c l =
    if not (c == 0) && ltb (length l.done + length l.typed) 128
    then accept (if c == 13 then newline else c) l
    else l

room-eq : (s : Ring) → IsValid s → has_room s ≡ ltb (length (ready s) + length (line s)) 128
room-eq s v =
    let total : length (ready s) + length (line s) ≡ sub32 s.e s.r = total_length s v in
    ap (λ n. ltb n 128) (sym total)

insert-Acts : (c : ℕ) (t : Console) → c < 256 → Inv t → Acts (default c) t (insert c t)
unfolding insert
insert-Acts c t small v = elim (Bool-cases (not (c == 0) && has_room t.ring)) [
  | inl y ↦
      let room : sub32 t.ring.e t.ring.r < 128 = ground (arith, y) in
      let c' : ℕ = if c == 13 then newline else c in
      let byte : c' % 256 ≡ c' = ground (arith, small) in
      let acts =
        end_line-Acts c' t (record t { ring = append c' t.ring; dev = consputc c' t.dev }) v
          (append-IsValid c' t.ring v.valid room) (ready-append c' t.ring v.valid room)
          (line-append c' t.ring v.valid room ∙ ap (λ b. line t.ring ++ (b ∷ [])) byte) in
      rw y (record { inv = acts.inv; same = rw (← room-eq t.ring v.valid, y) acts.same })
  | inr y ↦ rw y (record { inv = v; same = rw (← room-eq t.ring v.valid, y) })
]

handle-Acts : (c : ℕ) (t : Console) → c < 256 → Inv t → Acts (edit c) t (handle c t)
unfolding handle
handle-Acts c t small v = elim (Bool-cases (c == 16)) [
  | inl p ↦ rw p (record { inv = v; same = rw p })
  | inr p ↦ elim (Bool-cases (c == 21)) [
    | inl u ↦
        let acts = kill_line-Acts t v in
        rw (p, u) (record { inv = acts.inv; same = rw (p, u) acts.same })
    | inr u ↦ elim (Bool-cases (c == 8 || c == 127)) [
      | inl h ↦
          let acts = rub_out-Acts t v in
          rw (p, u, h) (record { inv = acts.inv; same = rw (p, u, h) acts.same })
      | inr h ↦
          let acts = insert-Acts c t small v in
          rw (p, u, h) (record { inv = acts.inv; same = rw (p, u, h) acts.same })
    ]
  ]
]

-- The ideal discipline over all the characters of an interrupt.
abbrev pub edit_all : List ℕ → Lines → Lines
edit_all [] l = l
edit_all (c ∷ cs) l = edit_all cs (edit c l)

drain-Acts :
    (cs : List ℕ) (dump : Bool) (t : Console)
    → All (λ c. c < 256) cs
    → Inv t
    → Acts (edit_all cs) t (drain cs dump t).1
unfolding drain
drain-Acts [] dump t h v = record { inv = v; same = refl }
drain-Acts (c ∷ cs) dump t h v =
    let first = handle-Acts c t h.0 v in
    let rest = drain-Acts cs (dump || c == 16) (handle c t) h.1 first.inv in
    record { inv = rest.inv; same = rest.same ∙ ap (edit_all cs) first.same }

-- The interrupt handler does to the buffer's two lists exactly what the ideal line discipline does
-- for its characters in order, and keeps the invariant.
pub consoleintr_refines :
    (cs : List ℕ) (t : Console)
    → All (λ c. c < 256) cs
    → Inv t
    → Inv (consoleintr cs t) × (view (consoleintr cs t) ≡ edit_all cs (view t))
unfolding consoleintr
consoleintr_refines cs t h v =
    let acts = drain-Acts cs false t h v in
    elim (Bool-cases (drain cs false t).0) [
      | inl d ↦
          rw d (record { valid = acts.inv.valid; no_newline = acts.inv.no_newline }, acts.same)
      | inr d ↦ rw d (acts.inv, acts.same)
    ]
