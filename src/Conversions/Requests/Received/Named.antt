-- ===== src/Conversions/Requests/Received/Named.antt =====
-- The requests about names: convertInMessage makes the op that the request asks for.
use fusego.Base.{ℕ, ◌≡◌, refl, false, [], ◌∷◌, ◌++◌, arith, ltb, ◌==◌, length, take-append}
use fusego.Base.Int.{ℤ}
use fusego.Bytes.{Bytes, le_bytes, le_value-le_bytes}
use fusego.Fuseops.{Time}
use fusego.Fusekernel.{Protocol}
use fusego.Fusekernel.Sizes.{mkdir_in_size, mknod_in_size, create_in_size}
use fusego.Buffer.Outgoing.{OutMessage}
use fusego.Conversions.Incoming.{convert_request}
use fusego.Conversions.Incoming.Names.{convert_link, convert_symlink, convert_rename}
use fusego.Conversions.Requests.{
  Unread, lookup, mkdir, mknod, create, symlink, rename, unlink, rmdir, link, removexattr, IsName,
  IsU32, IsU64, nul, u32, u64, since,
}
use fusego.Conversions.Requests.Reading.{
  holding, struct_in-append, rest_of-eq, nul_index-append, ends_in_nul-two, length-two, slice-two,
}
use fusego.Conversions.Requests.Received.Cases.{
  reserved-zero, done_reserved, Agrees, u64_at-u64, u32_at-u32, convert_name_lem,
  convert_struct_name_lem,
}

module _ (unix : ℤ → ℕ → Time) (p : Protocol) (x : Unread) (unique node pid : ℕ) (st : Bytes)
    (out : OutMessage) where
  pub lookup_case : (name : Bytes) → Agrees unix p x unique node pid st out (lookup name)
  unfolding convert_request
  lookup_case name = done_reserved _ out (convert_name_lem _ st out _ name)

  pub unlink_case : (name : Bytes) → Agrees unix p x unique node pid st out (unlink name)
  unfolding convert_request
  unlink_case name = done_reserved _ out (convert_name_lem _ st out _ name)

  pub rmdir_case : (name : Bytes) → Agrees unix p x unique node pid st out (rmdir name)
  unfolding convert_request
  rmdir_case name = done_reserved _ out (convert_name_lem _ st out _ name)

  pub removexattr_case : (name : Bytes) → Agrees unix p x unique node pid st out (removexattr name)
  unfolding convert_request
  removexattr_case name = done_reserved _ out (convert_name_lem _ st out _ name)

  pub mkdir_case :
      (mode umask : ℕ) (name : Bytes)
      → IsU32 mode
      → IsName name
      → Agrees unix p x unique node pid st out (mkdir mode umask name)
  unfolding convert_request le_bytes mkdir_in_size
  mkdir_case mode umask name h clean = rw (
    convert_struct_name_lem _ st out _ (mkdir_in_size p) (u32 mode ++ u32 umask) name (ground arith)
        (ground arith) clean.0,
    u32_at-u32 mode (u32 umask) h,
    reserved-zero,
  )

  pub mknod_case :
      (mode rdev umask : ℕ) (name : Bytes)
      → IsU32 mode
      → IsName name
      → Agrees unix p x unique node pid st out (mknod mode rdev umask name)
  unfolding convert_request le_bytes mknod_in_size
  mknod_case mode rdev umask name h clean =
      let s : Bytes = u32 mode ++ (u32 rdev ++ since 12 p (u32 umask ++ u32 0)) in
      rw (
        convert_struct_name_lem _ st out _ (mknod_in_size p) s name (ground arith) (ground arith)
            clean.0,
        u32_at-u32 mode (u32 rdev ++ since 12 p (u32 umask ++ u32 0)) h,
        reserved-zero,
      )

  pub create_case :
      (flags mode umask : ℕ) (name : Bytes)
      → IsU32 mode
      → IsName name
      → Agrees unix p x unique node pid st out (create flags mode umask name)
  unfolding convert_request le_bytes create_in_size
  create_case flags mode umask name h clean =
      let s : Bytes = u32 flags ++ (u32 mode ++ since 12 p (u32 umask ++ u32 0)) in
      rw (
        convert_struct_name_lem _ st out _ (create_in_size p) s name (ground arith) (ground arith)
            clean.0,
        le_value-le_bytes 4 mode h,
        reserved-zero,
      )

  pub link_case :
      (oldnodeid : ℕ) (name : Bytes)
      → IsU64 oldnodeid
      → IsName name
      → Agrees unix p x unique node pid st out (link oldnodeid name)
  unfolding convert_request convert_link le_bytes
  link_case oldnodeid name h clean =
      let some_name : (length name == 0) ≡ false = ground (arith, clean.1) in
      rw (
        convert_link,
        struct_in-append (u64 oldnodeid) st (name ++ nul) 8 refl (omega arith),
        rest_of-eq (holding st (name ++ nul)),
        nul_index-append name [] clean.0,
        rest_of-eq (holding st (name ++ nul)),
        take-append name nul,
        some_name,
        u64_at-u64 oldnodeid [] h,
        reserved-zero,
      )

  pub symlink_case :
      (name target : Bytes)
      → IsName name
      → Agrees unix p x unique node pid st out (symlink name target)
  unfolding convert_request convert_symlink
  symlink_case name target clean = rw (
    convert_symlink,
    rest_of-eq (holding st (name ++ (0 ∷ (target ++ nul)))),
    ends_in_nul-two name target,
    nul_index-append name (target ++ nul) clean.0,
    rest_of-eq (holding st (name ++ (0 ∷ (target ++ nul)))),
    slice-two name target,
    take-append name (0 ∷ (target ++ nul)),
    reserved-zero,
  )

  pub rename_case :
      (newdir : ℕ) (old_name new_name : Bytes)
      → IsU64 newdir
      → IsName old_name
      → IsName new_name
      → Agrees unix p x unique node pid st out (rename newdir old_name new_name)
  unfolding convert_request convert_rename le_bytes
  rename_case newdir old_name new_name h clean clean' =
      let names = old_name ++ (0 ∷ (new_name ++ nul)) in
      let long : ltb (length names) 4 ≡ false =
        ground (arith, length-two old_name new_name, clean.1, clean'.1) in
      rw (
        convert_rename,
        struct_in-append (u64 newdir) st names 8 refl (omega arith),
        rest_of-eq (holding st names),
        long,
        ends_in_nul-two old_name new_name,
        nul_index-append old_name (new_name ++ nul) clean.0,
        rest_of-eq (holding st names),
        slice-two old_name new_name,
        take-append old_name (0 ∷ (new_name ++ nul)),
        u64_at-u64 newdir [] h,
        reserved-zero,
      )
