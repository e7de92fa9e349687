-- ===== src/Net/File.antt =====
-- net/file.h and net/file.cc: a file's content as a string. The system calls are the parameter
-- `Files`; a call that returns -1 is none, and the state behind every call is passed on.
pub mod Whole
mod Tests
use jnet.Base.{
  ℕ, zero, suc, ◌+◌, ◌<◌, ◌≤◌, ◌≡◌, Option, none, some, List, [], ◌∷◌, ◌++◌, length, take, ltb,
  if◌then◌else◌,
}
use jnet.Net.Http.Text.{bytes_of}
use jnet.Net.Status.{Status, from_format}

-- `open` to read, and to write from the start; `read`, `write` and `close` of a descriptor, and what
-- a failed call leaves in `errno` with its `strerror`.
pub record Files (S : Type 0) : Type 0 where
  pub open_read : List ℕ → S → Option (ℕ × S)
  pub open_new : List ℕ → S → Option (ℕ × S)
  pub read : ℕ → ℕ → S → Option (List ℕ) × S
  pub write : ℕ → List ℕ → S → Option ℕ × S
  pub close : ℕ → S → S
  pub errno : S → ℕ
  pub strerror : ℕ → List ℕ

-- What the calls promise of a file `content` and of the bytes `rest` that a descriptor has not read:
-- a read gives some of them, and none only at the end; a write takes a front part.
pub record IsFiles {S : Type 0} (k : Files S) (content : List ℕ → S → List ℕ)
    (rest : ℕ → S → List ℕ) : Type 0 where
  pub open_read_rest :
      (name : List ℕ) (s : S)
      → (fd : ℕ) × (t : S) × (k.open_read name s ≡ some (fd, t)) × (rest fd t ≡ content name s)
  pub read_rest :
      (fd n : ℕ) (s : S)
      → 0 < n
      → (bytes : List ℕ) × (t : S) × (k.read fd n s ≡ (some bytes, t))
        × (length bytes ≤ n)
        × (rest fd s ≡ bytes ++ rest fd t)
        × (length bytes ≡ 0 → length (rest fd s) ≡ 0)
  pub open_new_write :
      (name bytes : List ℕ) (s : S)
      → (fd : ℕ) × (t : S) × (n : ℕ) × (u : S) × (k.open_new name s ≡ some (fd, t))
        × (k.write fd bytes t ≡ (some n, u))
        × (n ≤ length bytes)
        × (content name (k.close fd u) ≡ take n bytes)

module _ {S : Type 0} (k : Files S) where
  -- `Status::IoError(op, name)`.
  unfoldable pub io_error : List ℕ → List ℕ → S → Status
  unfolding from_format
  io_error op name s = from_format (k.errno s) (op ++ 32 ∷ (name ++ 32 ∷ k.strerror (k.errno s)))

  -- The loop of `GetContent`, on fuel; none is fuel that runs out.
  unfoldable pub read_loop : ℕ → ℕ → List ℕ → List ℕ → S → Option (Status × List ℕ × S)
  unfolding io_error
  read_loop zero fd name result s = none
  read_loop (suc fuel) fd name result s =
      let (got, t) = k.read fd 4096 s in
      elim got [
        | none ↦ some (io_error (bytes_of "read") name t, result, t)
        | some [] ↦ some (none, result, t)
        | some (b ∷ bytes) ↦ read_loop fuel fd name (result ++ b ∷ bytes) t
      ]

  -- `GetContent(filename, result)`: the status, and what `result` holds.
  unfoldable pub get_content : ℕ → List ℕ → List ℕ → S → Option (Status × List ℕ × S)
  unfolding io_error read_loop
  get_content fuel name result s = elim (k.open_read name s) [
    | none ↦ some (io_error (bytes_of "open") name s, result, s)
    | some (fd, t) ↦ elim (read_loop fuel fd name result t) [
      | none ↦ none
      | some (status, got, u) ↦ some (status, got, k.close fd u)
    ]
  ]

  -- `WriteContent(filename, content)`.
  unfoldable pub write_content : List ℕ → List ℕ → S → Status × S
  unfolding io_error
  write_content name bytes s = elim (k.open_new name s) [
    | none ↦ (io_error (bytes_of "open") name s, s)
    | some (fd, t) ↦
        let (written, u) = k.write fd bytes t in
        elim written [
          | none ↦ (io_error (bytes_of "write") name u, k.close fd u)
          | some n ↦ (none, k.close fd u)
        ]
  ]
