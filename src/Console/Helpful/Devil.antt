-- ===== src/Console/Helpful/Devil.antt =====
-- `handle_devil_mode` of B22CS052/Helpful/console.c. The delay loops are left out: they change nothing.
use os_project.Base.{ℕ, ◌+◌, ◌-◌, Bool, ◌&&◌, ◌==◌, leb, not, if◌then◌else◌, codes, replicate}
use os_project.Console.Device.{put_all}
use os_project.Console.Helpful.State.{Console, say, echo}
use os_project.Console.Screen.{backspace}

abbrev between : ℕ → ℕ → ℕ → Bool
between lo c hi = leb lo c && leb c hi

-- `for (i = 0; i < 5; i++) consputc(c)`
unfoldable pub five : ℕ → Console → Console
five c t = record t { dev = put_all (replicate 5 c) t.dev }

unfoldable pub handle_devil_mode : ℕ → Console → Console
handle_devil_mode c t =
    if c == 2000
    then say (codes "------- Welcome to Devil Mode-------\nThere is no way to exit now!!!\n") t
    else if between 225 c 227
    then (let t' = say (codes "Rebooting\n") t in record t' { reboots = t'.reboots + 1 })
    else if between 228 c 230
    then say (codes "You are entering into deadlock\n") t
    else if between 231 c 234
    then say (codes "echo\n") t
    else if between 235 c 238
    then say (codes "echo\n") t
    else if between 239 c 241
    then echo c t
    else if between 242 c 244
    then five (c - 128 + b'@') t
    else if between 245 c 247
    then five backspace t
    else if between 248 c 250
    then say (codes "echo\n") t
    else if not (c == 128)
    then say (codes "You are lucky at this keystroke!\n") t
    else t
