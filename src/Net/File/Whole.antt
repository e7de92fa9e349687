-- ===== src/Net/File/Whole.antt =====
-- Whole files in net/file.cc: what is read of a file, and of one that was written.
use jnet.Base.{
  List-cases, ℕ, zero, suc, ◌<◌, ◌≤◌, ◌≡◌, refl, ap, none, some, List, [], ◌∷◌, ◌++◌, arith, length,
  take, length-append, append-nil, append_assoc, length-take, inl, inr,
}
use jnet.Net.File.{Files, IsFiles, read_loop, get_content, write_content}

length-zero : (xs : List ℕ) → length xs ≡ 0 → xs ≡ []
length-zero [] h = refl
length-zero (x ∷ xs) h = absurd (omega (arith, h))

module _ {S : Type 0} (k : Files S) (content : List ℕ → S → List ℕ) (rest : ℕ → S → List ℕ)
    (law : IsFiles k content rest) where
  read_loop_lem :
      (fuel fd : ℕ) (name result : List ℕ) (s : S)
      → length (rest fd s) < fuel
      → (t : S) × (read_loop k fuel fd name result s ≡ some (none, result ++ rest fd s, t))
  unfolding read_loop
  read_loop_lem zero fd name result s enough = absurd (omega arith)
  read_loop_lem (suc fuel) fd name result s enough =
      let (bytes, t, got, short, split, ending) = law.read_rest fd 4096 s (omega arith) in
      elim (List-cases bytes) [
        | inl empty ↦ (
          t,
          ground (
            arith,
            got,
            empty,
            length-zero (rest fd s) (ending (omega (arith, ap length empty))),
            append-nil result,
          ),
        )
        | inr (c, cs, more) ↦
            let (u, done) =
              read_loop_lem fuel fd name (result ++ bytes) t
                (omega (arith, ap length split, length-append bytes (rest fd t), ap length more)) in
            (u, ground (arith, got, more, done, split, append_assoc result bytes (rest fd t)))
      ]

  -- `WriteContent` opens the file anew, gives all bytes to one `write`, closes the file and reports
  -- success, whatever the number of bytes that this `write` took. `GetContent` of the file after
  -- that, however short the pieces are that its reads return, and with more fuel than there are
  -- bytes: it ends, reports success and appends exactly the bytes that the `write` took.
  pub get_content-write_content :
      (name bytes result : List ℕ) (s : S) (fuel : ℕ)
      → length bytes < fuel
      → (fd : ℕ) × (a : S) × (n : ℕ) × (b : S) × (u : S) × (k.open_new name s ≡ some (fd, a))
        × (k.write fd bytes a ≡ (some n, b))
        × (n ≤ length bytes)
        × (write_content k name bytes s ≡ (none, k.close fd b))
        × (get_content k fuel name result (k.close fd b) ≡ some (none, result ++ take n bytes, u))
  unfolding write_content get_content
  get_content-write_content name bytes result s fuel enough =
      let (fd, t, n, u, opened, wrote, part, made) = law.open_new_write name bytes s in
      let (fe, v, reopened, all) = law.open_read_rest name (k.close fd u) in
      let (w, looped) =
        read_loop_lem fuel fe name result v
          (omega (arith, ap length all, ap length made, length-take n bytes)) in
      (
        fd,
        t,
        n,
        u,
        k.close fe w,
        opened,
        wrote,
        part,
        ground (arith, opened, wrote),
        ground (arith, reopened, all, made, looped),
      )
