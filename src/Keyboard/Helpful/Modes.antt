-- ===== src/Keyboard/Helpful/Modes.antt =====
-- The modes of `kbdgetc` in B22CS052/Helpful/kbd.c, and how they exclude one another.
use os_project.Base.{ℕ, ◌≡◌, false, arith, ◌&&◌}
use os_project.Keyboard.Helpful.{
  Driver, Outcome, done, go_on, commands, mode_keys, decode, note_blank, translate, complete,
  kbdgetc,
}
use os_project.Keyboard.Modifiers.{Port}

-- At most one of the three case modes is on, the two flags of the devil mode agree, and the time at
-- which sticky keys went on is still 0.
pub record IsValid (d : Driver) : Type 0 where
  pub one_case :
      (d.pascal_case && d.camel_case ≡ false)
      × (d.pascal_case && d.snake_case ≡ false)
      × (d.camel_case && d.snake_case ≡ false)
  pub one_devil : d.a_mode ≡ d.devil_mode
  pub no_time : d.sk_time ≡ 0

abbrev state : Outcome → Driver
state (done c d) = d
state (go_on key d) = d

commands-IsValid : (now key : ℕ) (d : Driver) → IsValid d → IsValid (state (commands now key d))
unfolding commands
commands-IsValid now key d v = ground arith

mode_keys-IsValid : (now key : ℕ) (d : Driver) → IsValid d → IsValid (state (mode_keys now key d))
unfolding mode_keys
mode_keys-IsValid now key d v = ground (arith, commands-IsValid now key d v)

decode-IsValid : (now byte : ℕ) (d : Driver) → IsValid d → IsValid (state (decode now byte d))
unfolding decode
decode-IsValid now byte d v = ground (arith, mode_keys-IsValid now byte d v)

translate-IsValid : (key : ℕ) (d : Driver) → IsValid d → IsValid (translate key d).1
unfolding translate note_blank
translate-IsValid key d v = ground arith

complete-IsValid : (o : Outcome) → IsValid (state o) → IsValid (complete o).1
unfolding complete
complete-IsValid (done c d) v = v
complete-IsValid (go_on key d) v = translate-IsValid key d v

-- Every read of the ports keeps the validity.
pub kbdgetc-IsValid : (p : Port) (d : Driver) → IsValid d → IsValid (kbdgetc p d).1
unfolding kbdgetc
kbdgetc-IsValid p d v =
    ground (arith, complete-IsValid (decode p.ticks p.byte d) (decode-IsValid p.ticks p.byte d v))
