-- ===== src/Xv6/Locks/Cli.antt =====
-- `pushcli` and `popcli` of spinlock.c, on the processor that calls them.
use os_project.Base.{
  ℕ, ◌+◌, ◌-◌, ◌≡◌, ◌⊎◌, inr, refl, ◌∙◌, Bool, false, ◌&&◌, Option, none, some, ◌==◌, if◌then◌else◌,
  arith,
}
use os_project.Console.Enigma.{◌>>=◌}

pub record Cpu : Type 0 where
  pub interrupts : Bool  -- the flag FL_IF
  pub ncli : ℕ
  pub intena : Bool

unfoldable pub pushcli : Cpu → Cpu
pushcli c = record {
  interrupts = false;
  ncli = c.ncli + 1;
  intena = if c.ncli == 0 then c.interrupts else c.intena;
}

-- `none` is a panic.
unfoldable pub popcli : Cpu → Option Cpu
popcli c =
    if c.interrupts
    then none
    else if c.ncli == 0
    then none
    else some (record c { ncli = c.ncli - 1; interrupts = c.ncli - 1 == 0 && c.intena })

-- Code that turns interrupts off and on again in nested pairs.
pub data Nest : Type 0 where
  nothing : Nest
  pair : Nest → Nest → Nest  -- the first between `pushcli` and `popcli`, the second behind them

unfoldable pub run : Nest → Cpu → Option Cpu
unfolding pushcli popcli
run nothing c = some c
run (pair inner after) c = run inner (pushcli c) >>= popcli >>= run after

-- Interrupts are off as long as some pair is open.
abbrev pub IsValid : Cpu → Type 0
IsValid c = (c.ncli ≡ 0) ⊎ (c.interrupts ≡ false)

-- What a run leaves: the depth and the flag as they were; what is remembered for the outermost pair
-- stays while one is open.
pub record Leaves (c c' : Cpu) : Type 0 where
  pub depth : c'.ncli ≡ c.ncli
  pub flag : c'.interrupts ≡ c.interrupts
  pub memory : (c.ncli ≡ 0) ⊎ (c'.intena ≡ c.intena)

-- The processor behind a `popcli` that does not panic.
abbrev lowered : Cpu → Cpu
lowered c = record c { ncli = c.ncli - 1; interrupts = c.ncli - 1 == 0 && c.intena }

popcli-lowered :
    (c c' : Cpu)
    → IsValid c
    → Leaves (pushcli c) c'
    → (popcli c' ≡ some (lowered c')) × Leaves c (lowered c')
unfolding pushcli popcli
popcli-lowered c c' v l = (
  ground (arith, l.depth, l.flag),
  record {
    depth = ground (arith, l.depth);
    flag = ground (arith, l.depth, l.flag, l.memory, v);
    memory = ground (arith, l.memory);
  },
)

lowered-IsValid : (c c' : Cpu) → IsValid c → Leaves c c' → IsValid c'
lowered-IsValid c c' v l = ground (arith, v, l.depth, l.flag)

Leaves-trans : (c c' c'' : Cpu) → Leaves c c' → Leaves c' c'' → Leaves c c''
Leaves-trans c c' c'' l k = record {
  depth = k.depth ∙ l.depth;
  flag = k.flag ∙ l.flag;
  memory = ground (arith, l.depth, l.memory, k.memory);
}

run-pair :
    (inner after : Nest) (c c₁ c₂ c₃ : Cpu)
    → run inner (pushcli c) ≡ some c₁
    → popcli c₁ ≡ some c₂
    → run after c₂ ≡ some c₃
    → run (pair inner after) c ≡ some c₃
unfolding run
run-pair inner after c c₁ c₂ c₃ e₁ e₂ e₃ = rw (e₁, ◌>>=◌, e₂) e₃

-- Code that nests `pushcli` and `popcli` in pairs never panics, and leaves the depth and the interrupt
-- flag as it found them, from any state in which interrupts are off while a pair is open. While a pair
-- is open, the flag that the outermost pair will restore stays what it was.
pub run-Leaves : (n : Nest) (c : Cpu) → IsValid c → (c' : Cpu) × (run n c ≡ some c') × Leaves c c'
unfolding run
run-Leaves nothing c v = (c, refl, record { depth = refl; flag = refl; memory = inr refl })
run-Leaves (pair inner after) c v =
    let (c₁, e₁, l₁) = run-Leaves inner (pushcli c) (inr refl) in
    let (e₂, l₂) = popcli-lowered c c₁ v l₁ in
    let (c₃, e₃, l₃) = run-Leaves after (lowered c₁) (lowered-IsValid c (lowered c₁) v l₂) in
    (c₃, run-pair inner after c c₁ (lowered c₁) c₃ e₁ e₂ e₃, Leaves-trans c (lowered c₁) c₃ l₂ l₃)
