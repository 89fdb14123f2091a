-- ===== src/Lib.antt =====
-- Package fuse for Go: file systems in user space.
--
-- The program. The kernel sends a request for each file system call. The package reads it (connection.go,
-- internal/buffer), turns it into an op (conversions.go, fuseops/), and calls the method of a file system
-- for it (fuseutil/); the reply goes back the same way. The samples are file systems that hold state of
-- their own: samples/memfs keeps a whole tree in memory, samples/forgetfs counts references.
--
-- The files.
-- - Base and its modules hold what all others share: Boolean tests and lists over the native numbers, and
--   `Outcome`, the result of Go code that may panic. An error that a method returns is a `Reply`.
-- - Bytes: strings and buffers as lists of numbers, and little-endian fields.
-- - Fuseops: fuseops/simple_types.go and errors.go. A time is a number of nanoseconds; a method that reads
--   the clock takes the reading as an argument, and a handler takes a `Clock`, one reading for each call of
--   time.Now in the order of its text. Fuseops.FileMode has the bits of os.FileMode.
-- - Dirent: fuseutil/dirent.go. `write_dirent` is WriteDirent; Dirent.RoundTrip has the kernel's side.
-- - Memfs.Inode: samples/memfs/inode.go, each method under its name in snake case. A method that changes its
--   receiver returns the new one. Below it, Contents and Resize are about the bytes of a file, Entries and
--   Listing about the entries of a directory, Invariant and Methods about what CheckInvariants asks for.
-- - Memfs.Fs: the state of samples/memfs/memfs.go, the table of inodes and the list of free IDs, with
--   NewMemFS, allocateInode, deallocateInode and checkInvariants. A pointer to an inode is its ID, and a
--   write through it is `put_inode`. Fs.Invariant has `IsFs`, what a valid file system is; Fs.Table reads
--   and writes the table; Allocation, Start and Checked are about the functions just named.
-- - Memfs.Names: the handlers of memfs.go that work on names. Names.View gives a file system as a map from
--   a directory and a name to a child, and the modules beside it say what each handler does to that map:
--   Creation and Handlers (MkDir, CreateFile, MkNode, CreateSymlink), Linking (CreateLink), Removal (Unlink,
--   RmDir), and Moving and Renaming (Rename). Names.Kept says what they leave of the inodes besides entries.
-- - Memfs.Files: the handlers of memfs.go that work on one inode; Files.Data is about contents and
--   attributes, Files.Xattr and Files.Listed about extended attributes.
-- - Memfs.Calls: the handlers as one step function on calls, the calls that they are made for, and the
--   file systems that are reached by them.
-- - Forgetfs: samples/forgetfs/forget_fs.go. Forgetfs.Balance has the counts as the kernel keeps them,
--   Forgetfs.Sessions the calls that the kernel may make, and Forgetfs.Unmount the end of a mount.
-- - Buffer: internal/buffer. Buffer.Outgoing is OutMessage, and Outgoing.Segments reads it as the bytes that
--   it holds; Buffer.Incoming is InMessage, and Incoming.Consuming is about Init and about taking a message
--   apart. The size of a buffer depends on the platform, and is the length of a list here.
-- - Fusekernel: internal/fusekernel, the versions of the protocol (protocol.go), the numbers of the requests
--   and the sizes of the structs (fuse_kernel.go).
-- - Fuseops.Ops: fuseops/ops.go and ops.go, a record for each op.
-- - Conversions: conversions.go. Conversions.Incoming is convertInMessage, with the cases of its switch in
--   Incoming.Names and Incoming.Files; Conversions.Outgoing is kernelResponse, with the structs of replies in
--   Outgoing.Structs; Conversions.Mode has the two conversions of modes. Conversions.Requests is the other
--   side, requests as the kernel writes them, with any values in the fields that are not read, which Requests.Received compares with what convertInMessage
--   makes of them; Outgoing.Answers and Outgoing.Replies are about the bytes of replies.
-- - Connection: connection.go, freelists.go and internal/freelist. Connection has the state and the functions
--   that take the lock, Connection.Ops has readMessage, ReadOp and Reply, and Connection.Init has Init.
--   Connection.Steps lets any number of requests go on side by side, as a relation between states;
--   Connection.Tracking, Turns and Sound are about it, Reads relates ReadOp to it, Arrival and Answered are
--   about one request from the device and to it, and Init.Handshake about the first one.
-- - Server: fuseutil/file_system.go, an interface that is a record of methods on any state, and handleOp;
--   Server.NotImplemented is fuseutil/not_implemented_file_system.go.
-- - Cachingfs: samples/cachingfs/caching_fs.go, as an instance of the interface of Server; Cachingfs.Inodes is
--   about the numbers of its inodes.
-- - The modules named Tests try the code out on small states.
--
-- Bounds. Sizes and offsets are compared with 2^63 where the source converts them to int, and what happens
-- beyond is written out: a negative length, and a panic at the slice. A file that would reach 2^48 bytes makes
-- `make` panic; below that the memory is taken to be there. Link and lookup counts wrap at 2^32
-- and 2^64. Loops recur on the list that they walk, so that no fuel is needed.
--
-- Locks. Each handler of memfs and forgetfs holds its one mutex while it works on the state, so that a call
-- is one step; Destroy of forgetfs takes none, and runs once the last call has ended. Go's order of iteration
-- over a map is open; a map is a list here, and the theorems hold for each order of it.
--
-- Memory. A struct of the kernel is the bytes at the offsets of its fields, on a 64-bit Linux machine. A
-- message has a pointer and what it holds; ReadOp takes the number of turns of its loop as fuel.
--
-- Not modelled: the system calls of mounting and unmounting, failing writes to the device, contexts, debug
-- output, the closing of a connection, the other samples, and the helpers of the tests.
pub mod Base
pub mod Buffer
pub mod Cachingfs
pub mod Connection
pub mod Conversions
pub mod Bytes
pub mod Dirent
pub mod Forgetfs
pub mod Fusekernel
pub mod Fuseops
pub mod Memfs
pub mod Server
