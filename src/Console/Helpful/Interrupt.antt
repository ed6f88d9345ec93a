-- ===== src/Console/Helpful/Interrupt.antt =====
-- `consoleintr` of B22CS052/Helpful/console.c. `none` is an access outside an array that C leaves
-- undefined: a write behind `previous_line` or `word_to_match`, a string with no NUL, a letter that the cipher cannot read.
use os_project.Base.{
  ℕ, zero, suc, ◌+◌, ◌-◌, ◌/◌, ◌%◌, Bool, true, false, not, ◌&&◌, ◌||◌, Option, none, some, List,
  [], ◌∷◌, ◌==◌, ltb, leb, if◌then◌else◌, update, sub32, newline, ctrl, codes, is_lower, is_upper,
  int_of_char,
}
use os_project.Console.Enigma.{◌>>=◌, enigma}
use os_project.Console.Helpful.Complete.{auto_complete}
use os_project.Console.Helpful.Devil.{handle_devil_mode}
use os_project.Console.Helpful.State.{
  Console, Outside, peek, say, echo, wake, strlen, slice, copy, paste, clear_line, get_prev_line,
}
use os_project.Console.Print.{cprintf}
use os_project.Console.Ring.{has_room, is_full, append, last, drop_last, commit}
use os_project.Console.Screen.{backspace}

-- The local variables of the function.
pub record Flags : Type 0 where
  pub doprocdump : Bool
  pub should_auto_complete : Bool
  pub should_clear_screen : Bool
  pub is_encrypt : Bool
  pub up_key : Bool
  pub devil_mode : Bool
  pub is_sticky_enabled : Bool
  pub is_sticky_disabled : Bool
  pub is_dvarok : Bool
  pub is_qwerty : Bool
  pub is_guide : Bool
  pub c_ : ℕ

unfoldable pub erase : Console → Console
erase t = echo backspace (record t { ring = drop_last t.ring })

-- Ctrl+U; a round takes a byte off the line.
unfoldable pub kill_line : ℕ → Console → Console
kill_line zero t = t
kill_line (suc rounds) t =
    let more = kill_line rounds (erase t) in
    if t.ring.e == t.ring.w || last t.ring == newline then t else more

-- The line that ends goes into `previous_line`, its last character first. `n` is `e - q - r`.
unfoldable pub remember : Outside → ℕ → ℕ → Console → Option Console
remember out zero q t = some t
remember out (suc n) q t =
    let c = peek out t.ring (sub32 (t.ring.r + suc n) 2) in
    let more = remember out n (q + 1) (record t { previous_line = update t.previous_line q c }) in
    if c == newline then some t else if ltb q 128 then more else none

unfoldable pub end_line : Outside → ℕ → Console → Option Console
end_line out c t =
    if c == newline || (c == ctrl b'D' || is_full t.ring)
    then (remember out (t.ring.e - t.ring.r) 0 t >>= λ t'.
        some (wake (record t' { ring = commit t'.ring })))
    else some t

-- The default branch.
unfoldable pub insert : Outside → ℕ → Console → Option Console
insert out code t =
    let c = if code == 0x0d then newline else code in
    if not (code == 0) && has_room t.ring
    then end_line out c (echo c (record t { ring = append c t.ring }))
    else some t

unfoldable pub rub_out : Console → Console
rub_out t = if t.ring.e == t.ring.w then t else erase t

-- The `switch`.
unfoldable pub select : Outside → ℕ → Flags → Console → Option (Flags × Console)
select out c f t =
    if c == 2500
    then some (record f { is_sticky_enabled = true }, t)
    else if c == 2501
    then some (record f { is_sticky_disabled = true }, t)
    else if c == 2502
    then some (record f { is_dvarok = true }, t)
    else if c == 2503
    then some (record f { is_qwerty = true }, t)
    else if c == 2504
    then some (record f { is_guide = true }, t)
    else if c == 226
    then some (record f { up_key = true }, t)
    else if c == 0x09
    then some (record f { should_auto_complete = true }, t)
    else if c == 1000
    then some (record f { is_encrypt = true }, t)
    else if c == ctrl b'P'
    then some (record f { doprocdump = true }, t)
    else if c == ctrl b'L'
    then some (record f { should_clear_screen = true }, t)
    else if c == ctrl b'U' || c == 227
    then some (f, kill_line (sub32 t.ring.e t.ring.w) t)
    else if c == ctrl b'C'
    then some (f, copy t)
    else if c == ctrl b'V'
    then (paste t >>= λ t'. some (f, t'))
    else if c == ctrl b'H' || c == 0x7f
    then some (f, rub_out t)
    else (insert out c t >>= λ t'. some (f, t'))

-- One round of the loop.
unfoldable pub handle : Outside → ℕ → Flags → Console → Option (Flags × Console)
unfolding select
handle out c f t =
    if leb 1000 c && ltb c 2000
    then (if ltb t.track_enigma 128
        then some (
          record f { is_encrypt = true; c_ = c - 1000 },
          record t {
            previous_line = update t.previous_line t.track_enigma ((c - 1000) % 256);
            track_enigma = t.track_enigma + 1;
          },
        )
        else none)
    else if leb 2000 c && ltb c 2500
    then some (
      record f { devil_mode = true; c_ = c - 2000 },
      record t { frustration_level = t.frustration_level + 1 },
    )
    else select out c f t

-- The loop over the codes that `getc` gives before its first negative one.
unfoldable pub drain : Outside → List ℕ → Flags → Console → Option (Flags × Console)
drain out [] f t = some (f, t)
drain out (c ∷ cs) f t = handle out c f t >>= λ r. drain out cs r.0 r.1

unfoldable pub clear_screen : Console → Console
clear_screen t = wake (say (0x1b ∷ codes "[J") (say (0x1b ∷ codes "[H") t))

unfoldable pub guide : Console → Console
guide t = say (codes "Press CTRL + SHIFT + H to open this guide again\n") (
    say (codes "Press CTRL + SHIFT + D to Enter Devil Mode (Warning !!!)\n") (
      say (codes "Press CTRL + SHIFT + S to Enter Snale Case Mode {hello_world_for_example}\n") (
        say (codes "Press CTRL + SHIFT + C to Enter Camel Case Mode {hello World For Example}\n") (
          say (codes "Press CTRL + SHIFT + P to Enter Pascal Case Mode {Hello World For Example}\n")
            (say (codes "Press Up Arrow to get previous line\n") (
              say (codes "Press CTRL + D to change keyboard layout\n") (
                say (codes "Press CTRL + S to activate sticky keys\n") (
                  say (codes "Press CTRL + V to paste the copied characters\n") (
                    say (codes "Press CTRL + C to Copy last 128 characters\n")
                      (say (codes "Press CTRL + E to Enter and Exit into Enigma Mode\n") t))))))))))

-- `handle_new_line_enigma`
unfoldable pub handle_new_line_enigma : Console → Option Console
handle_new_line_enigma t = strlen t.previous_line >>= λ n.
    let text = slice t.previous_line 0 n in
    let t' = record t {
      dev =
          cprintf (record { word = λ i. 1; string_at = λ a. text })
            (codes " is enigma cipher for %s.") t.dev;
      track_enigma = 0;
    } in
    some (clear_line t')

-- The branch of an encrypted character. The delay loop changes nothing.
unfoldable pub encrypt : ℕ → Console → Option Console
encrypt c t =
    if c == newline
    then (handle_new_line_enigma t >>= λ t'. some (wake (echo c t')))
    else (let t' = echo c t in
        if is_lower c || is_upper c
        then (enigma c t'.offsets >>= λ r.
            some (echo (int_of_char r.0) (echo backspace (record t' { offsets = r.1 }))))
        else some (echo c (echo backspace t')))

-- The remark at every fifth key of the devil mode.
unfoldable pub tease : Console → Console
tease t =
    if t.frustration_level % 5 == 0
    then record t {
      dev =
          cprintf (record { word = λ i. t.frustration_level / 5; string_at = λ a. [] })
            (codes "\nI see your frustation is now level %d. Let's see your patience!!!\n") t.dev;
    }
    else t

-- The branch of the devil mode.
unfoldable pub devil : ℕ → Console → Console
devil c t =
    let t' = tease t in
    if c == 0
    then say (codes "\n----Devil Mode entered----No way to exit!!!\n") t'
    else if ltb 250 c || ltb c 225
    then echo c t'
    else handle_devil_mode c t'

-- What follows the release of the lock: the first flag that is set decides.
unfoldable pub finish : Outside → Flags → Console → Option Console
finish out f t =
    if f.should_auto_complete
    then auto_complete out t
    else if f.should_clear_screen
    then some (clear_screen t)
    else if f.up_key
    then get_prev_line out t
    else if f.is_guide
    then some (guide t)
    else if f.is_encrypt
    then encrypt f.c_ t
    else if f.devil_mode
    then some (devil f.c_ t)
    else if f.is_dvarok
    then some (wake (say (codes "Switched to Dvarok layout\n") t))
    else if f.is_qwerty
    then some (wake (say (codes "Switched to qwerty layout\n") t))
    else if f.is_sticky_enabled
    then some (wake (say (codes "Sticky Keys enabled\n") t))
    else if f.is_sticky_disabled
    then some (wake (say (codes "Sricky Keys disabled\n") t))
    else if f.doprocdump
    then some (record t { dumps = t.dumps + 1 })
    else some t

abbrev pub no_flags : Flags
no_flags = record {
  doprocdump = false;
  should_auto_complete = false;
  should_clear_screen = false;
  is_encrypt = false;
  up_key = false;
  devil_mode = false;
  is_sticky_enabled = false;
  is_sticky_disabled = false;
  is_dvarok = false;
  is_qwerty = false;
  is_guide = false;
  c_ = 0;
}

unfoldable pub consoleintr : Outside → List ℕ → Console → Option Console
unfolding drain
consoleintr out cs t = drain out cs no_flags t >>= λ r. finish out r.0 r.1
