-- ===== src/Dirent/DirentType.antt =====
-- fuseutil/dirent.go: the values of DirentType that the file systems use, the system's DT_ constants.
use fusego.Base.{ℕ}

abbrev pub unknown : ℕ
unknown = 0

abbrev pub link : ℕ
link = 10

abbrev pub file : ℕ
file = 8

abbrev pub directory : ℕ
directory = 4
