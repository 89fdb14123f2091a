-- ===== src/Memfs/Tests/Reaching.antt =====
-- samples/memfs: a file system that is reached by a call.
