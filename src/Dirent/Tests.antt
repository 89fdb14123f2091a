-- ===== src/Dirent/Tests.antt =====
-- fuseutil/dirent.go on one entry.
use fusego.Base.{[], ◌∷◌}
use fusego.Bytes.{Bytes}
use fusego.Dirent.{Dirent}
use fusego.Dirent.DirentType

abbrev foo : Dirent
foo = record { offset = 1; inode = 2; name = 102 ∷ 111 ∷ 111 ∷ []; type = DirentType.file }

abbrev rest : Bytes
rest = 9 ∷ []
