-- ===== src/Forgetfs/Tests.antt =====
-- samples/forgetfs: one session, in which the kernel looks "foo" up.
use fusego.Base.{◌≡◌, refl, some, done, panics, arith}
use fusego.Bytes.{bytes_eq}
use fusego.Fuseops.{ChildInodeEntry}
use fusego.Forgetfs.{
  ForgetFs, new_forget_fs, look_up_inode, find_inode_by_id, find_node, put_node, check,
  check_forget_invariants, destroy, foo_id, root_id, foo_name, plain_entry, new_node,
}
use fusego.Forgetfs.Balance.{IsBalanced, at_mount}
use fusego.Forgetfs.Sessions.{
  Call, looking_up, Session, mounted, called, serve, IsAllowed, IsServed, held_after,
  Session-IsBalanced,
}
use fusego.Forgetfs.Unmount.{destroy_lem}

abbrev look_foo : Call
look_foo = looking_up root_id foo_name

abbrev after_look : ForgetFs
after_look = elim (serve look_foo new_forget_fs) [ done (_, fs) ↦ fs | panics ↦ new_forget_fs ]

abbrev foo_entry : ChildInodeEntry
foo_entry = plain_entry foo_id (new_node 1 0o777).attributes

looked : serve look_foo new_forget_fs ≡ done (some foo_entry, after_look)
unfolding new_forget_fs look_up_inode find_inode_by_id find_node put_node bytes_eq
looked = refl

one_call : Session (held_after at_mount look_foo (some foo_entry)) after_look
one_call = called look_foo mounted (omega arith, omega arith, omega arith) looked

Session-IsBalanced_example :
    IsBalanced (held_after at_mount look_foo (some foo_entry)) after_look
    × (check_forget_invariants after_look ≡ done tt)
    × ((call : Call)
        → IsAllowed (held_after at_mount look_foo (some foo_entry)) after_look call
        → IsServed (held_after at_mount look_foo (some foo_entry)) after_look call)
Session-IsBalanced_example = Session-IsBalanced one_call

destroy_lem_example : (fs' : ForgetFs) × (destroy after_look ≡ done fs') × (check fs' ≡ done tt)
destroy_lem_example = destroy_lem after_look
