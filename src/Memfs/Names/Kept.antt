-- ===== src/Memfs/Names/Kept.antt =====
-- samples/memfs/memfs.go: what a handler that works on names leaves of the inodes, besides entries.
use fusego.Base.{◌≡◌, refl, ◌∙◌, inl, inr, false, some, arith, ◌==◌, if◌then◌else◌, Bool-cases}
use fusego.Fuseops.{Time, InodeId, InodeAttributes}
use fusego.Memfs.Inode.{Inode}
use fusego.Memfs.Fs.{MemFs, put_inode}
use fusego.Memfs.Fs.Table.{inode_at, inode_at-put}

-- The inode `c'` has these attributes, and the contents, the target and the extended attributes of `c`.
abbrev pub IsKept : InodeAttributes → Inode → Inode → Type 0
IsKept attrs c c' =
    (c'.attrs ≡ attrs)
    × (c'.contents ≡ c.contents)
    × (c'.target ≡ c.target)
    × (c'.xattrs ≡ c.xattrs)

-- Each live inode stays live, with the attributes that `change` makes of its own, and with all else but
-- the entries.
abbrev pub Keeps : (InodeId → InodeAttributes → InodeAttributes) → MemFs → MemFs → Type 0
Keeps change fs fs' =
    (j : InodeId) (c : Inode)
    → inode_at fs j ≡ some c
    → (c' : Inode) × (inode_at fs' j ≡ some c') × IsKept (change j c.attrs) c c'

-- The time of modification of one inode is set.
abbrev pub modified : InodeId → Time → InodeId → InodeAttributes → InodeAttributes
modified id now j a = record a { mtime = if id == j then now else a.mtime }

pub modified-other :
    (id : InodeId) (now : Time) (j : InodeId) (a : InodeAttributes)
    → (id == j) ≡ false
    → modified id now j a ≡ a
modified-other id now j a e = rw e

pub Keeps-put :
    (change : InodeId → InodeAttributes → InodeAttributes) (fs : MemFs) (id : InodeId) (n m : Inode)
    → inode_at fs id ≡ some n
    → IsKept (change id n.attrs) n m
    → ((j : InodeId) (a : InodeAttributes) → (id == j) ≡ false → change j a ≡ a)
    → Keeps change fs (put_inode id m fs)
Keeps-put change fs id n m at kept same j c e =
    let put = inode_at-put fs id j m (λ e. cc) in
    elim (Bool-cases (id == j)) [
      | inl hit ↦
          let here : id ≡ j = ground arith in
          let old : c ≡ n = ground arith in (m, ground (arith, put), rw (old, ← here) kept)
      | inr miss ↦ (c, ground (arith, put), rw (same j c.attrs miss) (refl, refl, refl, refl))
    ]

pub Keeps-then :
    (f g h : InodeId → InodeAttributes → InodeAttributes) (fs fs₁ fs₂ : MemFs)
    → Keeps f fs fs₁
    → Keeps g fs₁ fs₂
    → ((j : InodeId) (a : InodeAttributes) → g j (f j a) ≡ h j a)
    → Keeps h fs fs₂
Keeps-then f g h fs fs₁ fs₂ first second both j c e =
    let (c₁, at₁, (attrs₁, contents₁, target₁, xattrs₁)) = first j c e in
    let (c₂, at₂, (attrs₂, contents₂, target₂, xattrs₂)) = second j c₁ at₁ in
    (
      c₂,
      at₂,
      (
        rw (attrs₂, attrs₁) (both j c.attrs),
        contents₂ ∙ contents₁,
        target₂ ∙ target₁,
        xattrs₂ ∙ xattrs₁,
      ),
    )
