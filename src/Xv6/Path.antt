-- ===== src/Xv6/Path.antt =====
-- Path names: `skipelem` and `namex` of fs.c, B22CS052/Helpful. A path is its bytes up to the NUL. What
-- the inodes on the disk say is a record of functions; the counts and locks of inodes are left out.
pub mod Laws
use os_project.Base.{
  is_empty, ◌+◌, ℕ, zero, suc, Bool, true, false, not, ◌&&◌, Option, none, some, List, [], ◌∷◌,
  ◌==◌, if◌then◌else◌, take, length,
}

abbrev pub dirsiz : ℕ
dirsiz = 14

unfoldable pub skip_slashes : List ℕ → List ℕ
skip_slashes [] = []
skip_slashes (c ∷ cs) = let rest = skip_slashes cs in if c == b'/' then rest else c ∷ cs

-- The bytes before the first slash, and the rest from it on.
unfoldable pub span : List ℕ → List ℕ × List ℕ
span [] = ([], [])
span (c ∷ cs) = let s = span cs in if c == b'/' then ([], c ∷ cs) else (c ∷ s.0, s.1)

-- The name and the path behind it.
unfoldable pub skipelem : List ℕ → Option (List ℕ × List ℕ)
unfolding skip_slashes span
skipelem path =
    let p = skip_slashes path in
    let s = span p in if is_empty p then none else some (take dirsiz s.0, skip_slashes s.1)

-- `ip->type == T_DIR`, and the inode that `dirlookup` finds for a name.
pub record Inodes : Type 0 where
  pub is_dir : ℕ → Bool
  pub dirlookup : ℕ → List ℕ → Option ℕ

-- The loop of `namex` at inode `ip`, and then its end; a round takes a byte of the path at least.
unfoldable pub walk : Inodes → Bool → ℕ → List ℕ → List ℕ → ℕ → Option (ℕ × List ℕ)
walk fs nameiparent zero path name ip = none
walk fs nameiparent (suc rounds) path name ip = elim (skipelem path) [
  | none ↦ if nameiparent then none else some (ip, name)
  | some s ↦
      if not (fs.is_dir ip)
      then none
      else if nameiparent && is_empty s.1
      then some (ip, s.0)
      else elim (fs.dirlookup ip s.0) [
        | none ↦ none
        | some next ↦ walk fs nameiparent rounds s.1 s.0 next
      ]
]

-- The inode with the last name read; `root` and `cwd` are the two inodes to start at.
unfoldable pub namex : Inodes → ℕ → ℕ → Bool → List ℕ → Option (ℕ × List ℕ)
unfolding walk
namex fs root cwd nameiparent [] = walk fs nameiparent 1 [] [] cwd
namex fs root cwd nameiparent (c ∷ cs) =
    walk fs nameiparent (length (c ∷ cs) + 1) (c ∷ cs) [] (if c == b'/' then root else cwd)
