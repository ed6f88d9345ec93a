-- ===== src/Console/Annoying.antt =====
-- The interrupt of B22CS052/Annoying/console.c, which releases its lock inside the loop. `none` is a
-- panic of `acquire` or of `release`.
pub mod Laws
use os_project.Base.{
  ℕ, ◌+◌, ◌-◌, Bool, true, false, not, ◌&&◌, ◌||◌, Option, none, some, List, [], ◌∷◌, ◌==◌, leb,
  if◌then◌else◌, codes, ctrl, replicate,
}
use os_project.Console.Device.{Device, consputc, put_all}
use os_project.Console.Editor.{Console, handle}
use os_project.Console.Enigma.{◌>>=◌}
use os_project.Console.Print.{cprintf}
use os_project.Console.Screen.{backspace}

pub record Machine : Type 0 where
  pub console : Console
  pub locked : Bool  -- `cons.lock`, held by this processor
  pub reboots : ℕ

unfoldable pub acquire : Machine → Option Machine
acquire m = if m.locked then none else some (record m { locked = true })

unfoldable pub release : Machine → Option Machine
release m = if m.locked then some (record m { locked = false }) else none

-- Output by `consputc`.
unfoldable pub put : List ℕ → Machine → Machine
put cs m = record m { console = record (m.console) { dev = put_all cs m.console.dev } }

unfoldable pub say : List ℕ → Machine → Machine
say text m = record m {
  console = record (m.console) {
    dev = cprintf (record { word = λ i. 0; string_at = λ a. [] }) text m.console.dev;
  };
}

abbrev between : ℕ → ℕ → ℕ → Bool
between lo c hi = leb lo c && leb c hi

-- The delay loop is left out: it changes nothing.
unfoldable pub handle_devil_mode : ℕ → Machine → Machine
handle_devil_mode c m =
    if c == 2000
    then say (codes "------- Welcome to Devil Mode-------\nThere is no way to exit now!!!\n") m
    else if between 129 c 131
    then (let m' = say (codes "Rebooting\n") m in record m' { reboots = m'.reboots + 1 })
    else if between 132 c 134
    then say (codes "You are entering into deadlock\n") m
    else if between 135 c 137
    then say (codes "echo\n") m
    else if between 138 c 140
    then say (codes "echo\n") m
    else if between 141 c 143
    then put (c ∷ []) m
    else if between 144 c 147
    then put (replicate 5 (c - 128 + b'@')) m
    else if between 148 c 150
    then put (replicate 5 backspace) m
    else if between 151 c 155
    then say (codes "echo\n") m
    else if not (c == 128)
    then say (codes "You are lucky at this keystroke!\n") m
    else m

-- What the loop does with a code while it holds the lock: from 128 on nothing but the note.
unfoldable pub edit : ℕ → Machine → Machine
edit c m = if leb 128 c then m else record m { console = handle c m.console }

-- What follows the release.
unfoldable pub react : ℕ → Bool → Bool → Machine → Machine
react c devil dump m =
    if devil
    then handle_devil_mode c m
    else if dump
    then record m { console = record (m.console) { dumps = m.console.dumps + 1 } }
    else m

-- The loop over the codes that `getc` gives before its first negative one, with `devil_mode` and
-- `doprocdump`.
unfoldable pub drain : List ℕ → Bool → Bool → Machine → Option Machine
drain [] devil dump m = some m
drain (c ∷ cs) devil dump m =
    let devil' = devil || leb 128 c in
    let dump' = dump || c == ctrl b'P' in
    release (edit c m) >>= λ m'. drain cs devil' dump' (react c devil' dump' m')

unfoldable pub consoleintr : List ℕ → Machine → Option Machine
unfolding drain
consoleintr cs m = acquire m >>= λ m'. drain cs false false m'
