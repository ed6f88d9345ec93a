-- ===== src/Console/Annoying/Laws.antt =====
-- The lock of the interrupt of B22CS052/Annoying/console.c, round by round.
use os_project.Base.{ℕ, ◌≡◌, Bool, true, false, ◌||◌, none, some, List, [], ◌∷◌, ◌==◌, leb, arith}
use os_project.Console.Annoying.{
  Machine, acquire, release, put, say, handle_devil_mode, edit, react, drain, consoleintr,
}

handle_devil_mode_locked : (c : ℕ) (m : Machine) → (handle_devil_mode c m).locked ≡ m.locked
unfolding handle_devil_mode say put
handle_devil_mode_locked c m = ground arith

react_locked : (c : ℕ) (devil dump : Bool) (m : Machine) → (react c devil dump m).locked ≡ m.locked
unfolding react
react_locked c devil dump m = ground (arith, handle_devil_mode_locked c m)

edit_locked : (c : ℕ) (m : Machine) → (edit c m).locked ≡ m.locked
unfolding edit
edit_locked c m = ground arith

-- A round that starts with the lock free panics.
drain_free :
    (c : ℕ) (cs : List ℕ) (devil dump : Bool) (m : Machine)
    → m.locked ≡ false
    → drain (c ∷ cs) devil dump m ≡ none
unfolding drain release
drain_free c cs devil dump m h = ground (arith, h, edit_locked c m)

-- When the lock is free, an interrupt that gives one character ends with the lock free; one that gives none
-- ends with the lock held and nothing else changed, and then the next interrupt panics; one that gives
-- two or more panics.
pub consoleintr_lock :
    (m : Machine)
    → m.locked ≡ false
    → ((c : ℕ) → (m' : Machine) × (consoleintr (c ∷ []) m ≡ some m') × (m'.locked ≡ false))
      × (consoleintr [] m ≡ some (record m { locked = true }))
      × ((cs : List ℕ) → consoleintr cs (record m { locked = true }) ≡ none)
      × ((c d : ℕ) (cs : List ℕ) → consoleintr (c ∷ d ∷ cs) m ≡ none)
unfolding consoleintr acquire release
consoleintr_lock m h = (one, ground (arith, h), λ cs. ground arith, two)
  where
    held : Machine
    held = record m { locked = true }

    freed : ℕ → Machine
    freed c = record (edit c held) { locked = false }

    reacted : ℕ → Machine
    reacted c = react c (false || leb 128 c) (false || c == 16) (freed c)

    one : (c : ℕ) → (m' : Machine) × (consoleintr (c ∷ []) m ≡ some m') × (m'.locked ≡ false)
    one c = (reacted c, ground (arith, h, edit_locked c held), react_locked c _ _ (freed c))

    two : (c d : ℕ) (cs : List ℕ) → consoleintr (c ∷ d ∷ cs) m ≡ none
    two c d cs = ground (
      arith,
      h,
      edit_locked c held,
      drain_free d cs (false || leb 128 c) (false || c == 16) (reacted c),
      react_locked c (false || leb 128 c) (false || c == 16) (freed c),
    )
