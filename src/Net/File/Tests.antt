-- ===== src/Net/File/Tests.antt =====
-- net/file.cc on a disk with one file, of which every read takes as much as it can.
use jnet.Base.{
  ℕ, ◌<◌, ◌≤◌, ◌≡◌, refl, sym, none, some, List, [], ◌∷◌, ◌++◌, arith, length, take, drop,
  take-append-drop, length-take, take-all,
}
use jnet.Net.File.{Files, IsFiles, get_content, write_content}
use jnet.Net.File.Whole.{get_content-write_content}

-- The file, and what the open descriptor has not read.
abbrev Disk : Type 0
Disk = List ℕ × List ℕ

abbrev files : Files Disk
files = record {
  open_read = λ name s. some (3, (s.0, s.0));
  open_new = λ name s. some (3, ([], s.1));
  read = λ fd n s. (some (take n s.1), (s.0, drop n s.1));
  write = λ fd bytes s. (some (length bytes), (s.0 ++ bytes, s.1));
  close = λ fd s. s;
  errno = λ s. 0;
  strerror = λ e. [];
}

abbrev content : List ℕ → Disk → List ℕ
content name s = s.0

abbrev unread : ℕ → Disk → List ℕ
unread fd s = s.1

take-ends : (n : ℕ) (xs : List ℕ) → 0 < n → length (take n xs) ≡ 0 → length xs ≡ 0
take-ends n xs some-room h = omega (arith, length-take n xs, h)

files-IsFiles : IsFiles files content unread
files-IsFiles = record {
  open_read_rest = λ name s. (3, (s.0, s.0), refl, refl);
  read_rest = λ fd n s room. (
    take n s.1,
    (s.0, drop n s.1),
    refl,
    omega (arith, length-take n s.1),
    sym (take-append-drop n s.1),
    take-ends n s.1 room,
  );
  open_new_write = λ name bytes s.
      (3, ([], s.1), length bytes, (bytes, s.1), refl, refl, omega arith, sym (take-all bytes));
}

get_content-write_content_example :
    (fd : ℕ) × (a : Disk) × (n : ℕ) × (b : Disk) × (u : Disk) × (files.open_new
        (7 ∷ [])
        (9 ∷ [], [])
      ≡ some (fd, a))
    × (files.write fd (1 ∷ 2 ∷ 3 ∷ []) a ≡ (some n, b))
    × (n ≤ 3)
    × (write_content files (7 ∷ []) (1 ∷ 2 ∷ 3 ∷ []) (9 ∷ [], []) ≡ (none, files.close fd b))
    × (get_content files 4 (7 ∷ []) (8 ∷ []) (files.close fd b)
        ≡ some (none, (8 ∷ []) ++ take n (1 ∷ 2 ∷ 3 ∷ []), u))
get_content-write_content_example =
    get_content-write_content files content unread files-IsFiles (7 ∷ []) (1 ∷ 2 ∷ 3 ∷ []) (8 ∷ [])
      (9 ∷ [], []) 4 (omega arith)
