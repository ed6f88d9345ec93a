-- ===== src/Console/Editor.antt =====
-- What the consoles do to the input buffer for one character, and its echo: the branches of
-- `consoleintr` in B22CS039/console.c, and that function itself.
pub mod Kill
pub mod Refine
use os_project.Base.{
  ℕ, zero, suc, ◌+◌, Bool, true, false, ◌||◌, ◌&&◌, not, List, [], ◌∷◌, ◌==◌, if◌then◌else◌, sub32,
  newline, ctrl,
}
use os_project.Console.Device.{Device, consputc}
use os_project.Console.Ring.{Ring, has_room, is_full, append, last, drop_last, commit}
use os_project.Console.Screen.{backspace}

pub record Console : Type 0 where
  pub ring : Ring
  pub dev : Device
  pub wakes : ℕ  -- the calls of `wakeup(&input.r)`
  pub dumps : ℕ  -- the calls of `procdump()`

-- The last byte of the line goes, on the screen too.
unfoldable pub erase : Console → Console
erase t = record t { ring = drop_last t.ring; dev = consputc backspace t.dev }

-- The loop of Ctrl+U; a round takes a byte off the line, so `e - w` rounds are enough.
unfoldable pub kill_line : ℕ → Console → Console
kill_line zero t = t
kill_line (suc rounds) t =
    let more = kill_line rounds (erase t) in
    if t.ring.e == t.ring.w || last t.ring == newline then t else more

-- A backspace.
unfoldable pub rub_out : Console → Console
rub_out t = if t.ring.e == t.ring.w then t else erase t

-- The end of a line, or a full buffer, hands the line to the readers.
unfoldable pub end_line : ℕ → Console → Console
end_line c t =
    if c == newline || (c == ctrl b'D' || is_full t.ring)
    then record t { ring = commit t.ring; wakes = t.wakes + 1 }
    else t

-- The default branch.
unfoldable pub insert : ℕ → Console → Console
unfolding end_line
insert code t =
    let c = if code == 0x0d then newline else code in
    if not (code == 0) && has_room t.ring
    then end_line c (record t { ring = append c t.ring; dev = consputc c t.dev })
    else t

-- The `switch`, without the note that Ctrl+P takes.
unfoldable pub handle : ℕ → Console → Console
handle c t =
    if c == ctrl b'P'
    then t
    else if c == ctrl b'U'
    then kill_line (sub32 t.ring.e t.ring.w) t
    else if c == ctrl b'H' || c == 0x7f
    then rub_out t
    else insert c t

-- The loop over the codes that `getc` gives before its first negative one, with `doprocdump`.
unfoldable pub drain : List ℕ → Bool → Console → Bool × Console
drain [] dump t = (dump, t)
drain (c ∷ cs) dump t = drain cs (dump || c == ctrl b'P') (handle c t)

unfoldable pub consoleintr : List ℕ → Console → Console
unfolding drain
consoleintr cs t =
    let (dump, t') = drain cs false t in if dump then record t' { dumps = t'.dumps + 1 } else t'
