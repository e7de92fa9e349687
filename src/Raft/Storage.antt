-- ===== src/Raft/Storage.antt =====
-- raft/storage.h and raft/storage.cc: one file, through the system calls `pwrite`, `pread`,
-- `ftruncate64` and `fstat`. The file system is the parameter `S` with these operations; each
-- `Option` is `none` where the call returns -1, and a read returns the bytes that it got.
use jnet.Base.{ℕ, ◌+◌, ◌≤◌, ◌≡◌, Option, some, List, ◌++◌, length, slice, take}

pub record Storage (S : Type 0) : Type 0 where
  pub write : S → List ℕ → ℕ → Option S
  pub read : S → ℕ → ℕ → Option (List ℕ)
  pub truncate : S → ℕ → Option S
  pub file_size : S → ℕ

-- What the calls do on a disk that does not fail: `content` is the file's bytes.
pub record IsReliable {S : Type 0} (disk : Storage S) (content : S → List ℕ) : Type 0 where
  pub write_end :
      (s : S) (p : List ℕ)
      → (t : S) × (disk.write s p (length (content s)) ≡ some t) × (content t ≡ content s ++ p)
  pub read_inside :
      (s : S) (off len : ℕ)
      → off + len ≤ length (content s)
      → disk.read s len off ≡ some (slice (content s) off len)
  pub size_of : (s : S) → disk.file_size s ≡ length (content s)
  pub truncate_inside :
      (s : S) (off : ℕ)
      → off ≤ length (content s)
      → (t : S) × (disk.truncate s off ≡ some t) × (content t ≡ take off (content s))
