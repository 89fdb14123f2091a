-- ===== src/Memfs/Fs/Start.antt =====
-- samples/memfs/memfs.go: NewMemFS under the invariant of the file system.
use fusego.Base.{ℕ, zero, suc, ◌≡◌, refl, subst, true, none, some, arith, ◌==◌, if◌then◌else◌}
use fusego.Bytes.{Bytes}
use fusego.Fuseops.{Time, InodeId, root_inode_id}
use fusego.Memfs.Inode.{Inode, new_inode, is_dir}
use fusego.Memfs.Inode.Entries.{child_of}
use fusego.Memfs.Inode.Invariant.{new_inode-IsInode}
use fusego.Memfs.Fs.{new_mem_fs, root_attrs, has_id}
use fusego.Memfs.Fs.Table.{inode_at}
use fusego.Memfs.Fs.Invariant.{IsFs}

module _ (now : Time) (uid gid : ℕ) where
  abbrev root_inode : Inode
  root_inode = new_inode now (root_attrs uid gid)

  root_dir : is_dir root_inode ≡ true
  unfolding new_inode is_dir
  root_dir = refl

  root_empty :
      (name : Bytes) (child : InodeId) (dt : ℕ)
      → ¬ (child_of name root_inode.entries ≡ some (child, dt))
  unfolding new_inode child_of
  root_empty name child dt c = cc

  root_at :
      (id : InodeId)
      → inode_at (new_mem_fs now uid gid) id
        ≡ (if id == root_inode_id then some root_inode else none)
  unfolding new_mem_fs inode_at
  root_at zero = refl
  root_at (suc zero) = refl
  root_at (suc (suc id)) = ground arith

  root_alone :
      (id : InodeId) (n : Inode) → inode_at (new_mem_fs now uid gid) id ≡ some n → n ≡ root_inode
  root_alone id n e = ground (arith, root_at id)

  -- A new file system is valid; it has the root alone.
  pub new_mem_fs-IsFs : IsFs (new_mem_fs now uid gid)
  new_mem_fs-IsFs = record {
    reserved = root_at 0;
    rooted = (root_inode, root_at root_inode_id, root_dir);
    valid = λ id n e.
        rw (root_alone id n e) (new_inode-IsInode now (root_attrs uid gid) (refl, refl) refl);
    closed = λ id n name child dt e ne c. absurd (
        root_empty name child dt (
          subst (λ (m : Inode). child_of name m.entries ≡ some (child, dt)) (root_alone id n e) c));
    free = λ id. unfold new_mem_fs has_id in (λ h. cc, λ h. absurd (omega arith));
    distinct = unfold new_mem_fs in tt;
  }
