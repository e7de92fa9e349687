-- ===== src/Raft/Log/Reload.antt =====
-- The file of raft/raft_log.cc: what `Append` writes is what `Load` finds again.
use mathlib.Core.List.{flatten}
use jnet.Base.{
  ℕ, zero, suc, ◌+◌, ◌≤◌, ◌<◌, ◌≡◌, refl, sym, ap, ap₂, subst, ◌∙◌, some, List, [], ◌∷◌, ◌++◌, map,
  lt→ltb, append-nil, append_assoc, arith, length, length-append,
}
use jnet.Base.Int.{ℤ}
use jnet.Base.Bytes.{le_bytes, to_u64, IsInt64, length-le_bytes, of_u64-from_le}
use jnet.Raft.Storage.{Storage, IsReliable}
use jnet.Raft.Entry.{LogEntry}
use jnet.Raft.Log.{
  RaftLog, new, header, header_size, header_term, header_len, append, load_loop, load,
  set_first_index,
}
use jnet.Raft.Log.Records.{
  Record, record_bytes, offsets, AllFit, length-header, header_term-header, header_len-header,
  slice-middle, flat-append, length-record, offsets-append,
}

module _ {S : Type 0} (disk : Storage S) (content : S → List ℕ) where
  -- The file holds the first index and then the records, and the vector has their places.
  pub record Stores (l : RaftLog S) (first : ℤ) (rs : List Record) : Type 0 where
    pub index : l.first_index ≡ first
    pub file : content l.storage ≡ le_bytes 8 (to_u64 first) ++ flatten (map record_bytes rs)
    pub end : l.bytes ≡ length (content l.storage)
    pub places : l.offset_term ≡ offsets 8 rs

  module _ (reliable : IsReliable disk content) where
    written :
        (s : S) (p : List ℕ) (n : ℕ)
        → n ≡ length (content s)
        → (t : S) × (disk.write s p n ≡ some t) × (content t ≡ content s ++ p)
    written s p n e = rw e (reliable.write_end s p)

    read_record :
        (s : S) (pre mid post : List ℕ) (off len : ℕ)
        → content s ≡ pre ++ (mid ++ post)
        → off ≡ length pre
        → len ≡ length mid
        → disk.read s len off ≡ some mid
    read_record s pre mid post off len e o n =
        rw (o, n)
          (reliable.read_inside s (length pre) (length mid)
              (omega (arith, ap length e, length-append pre (mid ++ post), length-append mid post))
            ∙ ap some (slice-middle (content s) pre mid post e))

    pub append-Stores :
        (serialize : LogEntry → List ℕ) (l : RaftLog S) (first : ℤ) (rs : List Record)
        (e : LogEntry)
        → Stores l first rs
        → Stores (append disk serialize l e) first (rs ++ (e.term, serialize e) ∷ [])
    unfolding append flatten
    append-Stores serialize l first rs e st =
        let (s, wrote, bytes) = written l.storage (header e.term (length str)) l.bytes st.end in
        let (t, wrote', bytes') = written s str (l.bytes + header_size) (
          omega (
            arith,
            st.end,
            ap length bytes,
            length-append (content l.storage) (header e.term (length str)),
            length-header e.term (length str),
          )) in
        let after : append disk serialize l e ≡ record l {
          offset_term = l.offset_term ++ (l.bytes, e.term) ∷ [];
          bytes = l.bytes + (length str + header_size);
          storage = t;
        } =
          ground (arith, wrote, wrote') in
        rw after (record {
          index = st.index;
          file =
              bytes'
              ∙ ap (λ c. c ++ str) (bytes ∙ ap (λ c. c ++ header e.term (length str)) st.file)
              ∙ simp (append_assoc, flat-append rs ((e.term, str) ∷ []), append-nil);
          end = omega (
            arith,
            st.end,
            ap length bytes,
            ap length bytes',
            length-append (content l.storage) (header e.term (length str)),
            length-append (content s) str,
            length-header e.term (length str),
          );
          places =
              ap₂ (λ o k. o ++ (k, e.term) ∷ []) st.places
                (st.end
                  ∙ ap length st.file
                  ∙ length-append (le_bytes 8 (to_u64 first)) (flatten (map record_bytes rs))
                  ∙ ap (λ k. k + length (flatten (map record_bytes rs)))
                      (length-le_bytes 8 (to_u64 first)))
              ∙ sym (offsets-append rs ((e.term, str) ∷ []) 8);
        })
      where
        str : List ℕ
        str = serialize e

    load_loop-done :
        (fuel size : ℕ) (l : RaftLog S) → size ≤ l.bytes → load_loop disk fuel size l ≡ l
    unfolding load_loop
    load_loop-done zero size l h = refl
    load_loop-done (suc fuel) size l h = ground arith

    load_loop-step :
        (fuel size : ℕ) (l : RaftLog S) (h body : List ℕ)
        → l.bytes < size
        → disk.read l.storage header_size l.bytes ≡ some h
        → disk.read l.storage (header_len h) (l.bytes + header_size) ≡ some body
        → load_loop disk (suc fuel) size l
          ≡ load_loop disk fuel size (record l {
            offset_term = l.offset_term ++ (l.bytes, header_term h) ∷ [];
            bytes = l.bytes + (header_size + header_len h);
          })
    unfolding load_loop
    load_loop-step fuel size l h body more r r' = rw (lt→ltb _ _ more, load_loop, r, r') refl

    sizes :
        (r : Record) (rs : List Record)
        → length (flatten (map record_bytes (r ∷ rs)))
          ≡ header_size + (length r.1 + length (flatten (map record_bytes rs)))
    unfolding flatten
    sizes r rs =
        omega
          (arith, length-record r, length-append (record_bytes r) (flatten (map record_bytes rs)))

    load_loop-all :
        (rs : List Record) (fuel : ℕ) (l : RaftLog S) (pre : List ℕ)
        → AllFit rs
        → content l.storage ≡ pre ++ flatten (map record_bytes rs)
        → l.bytes ≡ length pre
        → length (flatten (map record_bytes rs)) ≤ fuel
        → load_loop disk fuel (length (content l.storage)) l ≡ record l {
          offset_term = l.offset_term ++ offsets l.bytes rs;
          bytes = length (content l.storage);
        }
    unfolding flatten
    load_loop-all [] fuel l pre fit e at short =
        let whole : l.bytes ≡ length (content l.storage) =
          omega (arith, at, ap length e, length-append pre []) in
        load_loop-done fuel _ l (omega (arith, whole)) ∙ ground (arith, append-nil l.offset_term)
    load_loop-all ((term, body) ∷ rs) zero l pre fit e at short =
        absurd (omega (arith, sizes (term, body) rs))
    load_loop-all ((term, body) ∷ rs) (suc fuel) l pre fit e at short =
        load_loop-step fuel _ l h body
          (omega (
            arith,
            at,
            ap length e,
            sizes (term, body) rs,
            length-append pre (flatten (map record_bytes ((term, body) ∷ rs))),
          ))
          (read_record l.storage pre h (body ++ rest) l.bytes header_size file at (sym long))
          (read_record l.storage (pre ++ h) body rest (l.bytes + header_size) (header_len h)
            (file ∙ sym (append_assoc pre h (body ++ rest)))
            (omega (arith, at, long, length-append pre h)) len)
        ∙ rw (len, header_term-header term (length body) fit.0)
            (load_loop-all rs fuel next (pre ++ record_bytes (term, body)) fit.2
                (e ∙ sym (append_assoc pre (record_bytes (term, body)) rest))
                (omega (
                  arith,
                  at,
                  length-append pre (record_bytes (term, body)),
                  length-record (term, body),
                ))
                (omega (arith, sizes (term, body) rs))
              ∙ ap (λ o. record l { offset_term = o; bytes = length (content l.storage) })
                  (append_assoc l.offset_term ((l.bytes, term) ∷ []) (offsets next.bytes rs)))
      where
        h : List ℕ
        h = header term (length body)

        rest : List ℕ
        rest = flatten (map record_bytes rs)

        long : length h ≡ header_size
        long = length-header term (length body)

        len : header_len h ≡ length body
        len = header_len-header term (length body) fit.1

        file : content l.storage ≡ pre ++ (h ++ (body ++ rest))
        file = e ∙ ap (λ c. pre ++ c) (append_assoc h body rest)

        next : RaftLog S
        next = record l {
          offset_term = l.offset_term ++ (l.bytes, term) ∷ [];
          bytes = l.bytes + (header_size + length body);
        }

    -- `Load` on a fresh log object finds in the file exactly the log that was stored: the first
    -- index, the place and the term of every record, and the end of the file.
    pub load-Stores :
        (l : RaftLog S) (first : ℤ) (rs : List Record)
        → IsInt64 first
        → AllFit rs
        → Stores l first rs
        → load disk (new l.storage) ≡ l
    unfolding load new le_bytes
    load-Stores l first rs i fit st =
        begun
        ∙ load_loop-all rs (length (content l.storage)) start (le_bytes 8 (to_u64 first)) fit
            st.file refl
            (omega (
              arith,
              ap length st.file,
              length-append (le_bytes 8 (to_u64 first)) (flatten (map record_bytes rs)),
            ))
        ∙ ground (arith, st)
      where
        read_first : disk.read l.storage 8 0 ≡ some (le_bytes 8 (to_u64 first))
        read_first =
            read_record l.storage [] (le_bytes 8 (to_u64 first)) (flatten (map record_bytes rs)) 0 8
              st.file refl refl

        start : RaftLog S
        start = record { first_index = first; bytes = 8; offset_term = []; storage = l.storage }

        begun :
            load disk (new l.storage)
            ≡ load_loop disk (length (content l.storage)) (length (content l.storage)) start
        begun =
            rw (read_first, load)
              (ap₂ (λ n i'. load_loop disk n n (record start { first_index = i' }))
                (reliable.size_of l.storage) (of_u64-from_le first i))

    pub set_first_index-Stores :
        (s : S) (first : ℤ) → content s ≡ [] → Stores (set_first_index disk (new s) first) first []
    unfolding set_first_index new flatten
    set_first_index-Stores s first e =
        let (t, wrote, bytes) =
          written s (le_bytes 8 (to_u64 first)) 0 (omega (arith, ap length e)) in
        rw (wrote, set_first_index)
          (record {
            index = refl;
            file = bytes ∙ ap (λ c. c ++ le_bytes 8 (to_u64 first)) e ∙ sym (append-nil _);
            end = omega (
              arith,
              ap length bytes,
              ap length e,
              length-append (content s) (le_bytes 8 (to_u64 first)),
              length-le_bytes 8 (to_u64 first),
            );
            places = refl;
          })

-- A series of `Append` calls.
unfoldable pub append_entries :
    {S : Type 0} → Storage S → (LogEntry → List ℕ) → RaftLog S → List LogEntry → RaftLog S
append_entries disk serialize l [] = l
append_entries disk serialize l (e ∷ es) =
    append_entries disk serialize (append disk serialize l e) es

abbrev pub records : (LogEntry → List ℕ) → List LogEntry → List Record
records serialize [] = []
records serialize (e ∷ es) = (e.term, serialize e) ∷ records serialize es

module _ {S : Type 0} (disk : Storage S) (content : S → List ℕ)
    (reliable : IsReliable disk content) where
  pub append_entries-Stores :
      (serialize : LogEntry → List ℕ) (l : RaftLog S) (first : ℤ) (rs : List Record)
      (es : List LogEntry)
      → Stores disk content l first rs
      → Stores disk content (append_entries disk serialize l es) first (rs ++ records serialize es)
  unfolding append_entries
  append_entries-Stores serialize l first rs [] st =
      subst (Stores disk content l first) (sym (append-nil rs)) st
  append_entries-Stores serialize l first rs (e ∷ es) st =
      subst
        (Stores disk content (append_entries disk serialize (append disk serialize l e) es) first)
        (append_assoc rs ((e.term, serialize e) ∷ []) (records serialize es))
        (append_entries-Stores serialize (append disk serialize l e) first
          (rs ++ (e.term, serialize e) ∷ []) es
          (append-Stores disk content reliable serialize l first rs e st))

  -- On a disk that does not fail: a log whose first index is set on an empty file, and to which any
  -- entries are then appended, is found again by `Load` on a fresh object, in every field.
  pub load-append_entries :
      (serialize : LogEntry → List ℕ) (s : S) (first : ℤ) (es : List LogEntry)
      → content s ≡ []
      → IsInt64 first
      → AllFit (records serialize es)
      → let l = append_entries disk serialize (set_first_index disk (new s) first) es in
        (load disk (new l.storage) ≡ l)
        × (l.first_index ≡ first)
        × (l.offset_term ≡ offsets 8 (records serialize es))
  load-append_entries serialize s first es e i fit =
      let st =
        append_entries-Stores serialize (set_first_index disk (new s) first) first [] es
          (set_first_index-Stores disk content reliable s first e) in
      (
        load-Stores disk content reliable _ first (records serialize es) i fit st,
        st.index,
        st.places,
      )
