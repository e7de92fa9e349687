-- ===== src/Net/TcpConn/Writes.antt =====
-- One call of `ISend` of net/tcpconn.cc: what the kernel takes and how the loop ends.
use jnet.Base.{
  ℕ, ◌+◌, ◌≤◌, ◌≡◌, refl, sym, ap, subst, ◌∙◌, ◌⊎◌, inl, inr, true, not, some, List, [], ◌∷◌, ◌++◌,
  arith, if◌then◌else◌, length, take, drop, Bool-cases, Option-cases, ℕ_discrete, length-drop,
  take-more,
}
use jnet.Net.Channel.{Channel, is_writing, enable_write, interest_lem}
use jnet.Net.TcpConn.{
  WriteResult, wrote, write_eintr, write_eagain, write_error, Sent, nothing_sent, i_send,
}

-- No answer of the kernel is an error, or a count of 0.
abbrev pub NoError : List WriteResult → Type 0
NoError [] = Unit {0}
NoError (wrote n ∷ script) = (1 ≤ n) × NoError script
NoError (write_eintr ∷ script) = NoError script
NoError (write_eagain ∷ script) = NoError script
NoError (write_error ∷ script) = ⊥

-- What a call of `ISend` has done: the kernel took exactly the first `sended` bytes, and the channel
-- writes if it did before.
pub record SentPrefix (ch : Channel) (bs : List ℕ) (r : Sent) : Type 0 where
  pub short : r.sended ≤ length bs
  pub bytes : r.taken ≡ take r.sended bs
  pub writes : is_writing ch ≡ true → is_writing r.channel ≡ true

nothing-SentPrefix :
    (ch ch' : Channel) (bs : List ℕ)
    → (is_writing ch ≡ true → is_writing ch' ≡ true)
    → SentPrefix ch bs (nothing_sent ch')
nothing-SentPrefix ch ch' bs w = record { short = omega arith; bytes = refl; writes = w }

-- One round of `ISend` in which the kernel takes bytes, or refuses to.
i_send-wrote :
    (n : ℕ) (script : List WriteResult) (ch : Channel) (x : ℕ) (xs : List ℕ) (r : Sent)
    → i_send (wrote n ∷ script) ch (x ∷ xs) ≡ some r
    → ((n ≡ 0) × (nothing_sent ch ≡ r))
      ⊎ ((1 ≤ n)
          × (n ≤ length (x ∷ xs))
          × (r' : Sent) × (i_send script ch (drop n (x ∷ xs)) ≡ some r')
          × (record r' { sended = n + r'.sended; taken = take n (x ∷ xs) ++ r'.taken } ≡ r))
i_send-wrote n script ch x xs r h = elim (ℕ_discrete n 0) [
  | yes zero_count ↦ inl (zero_count, unfold i_send in ground arith)
  | no more ↦ elim (Option-cases (i_send script ch (drop n (x ∷ xs)))) [
    | inl stuck ↦ absurd (unfold i_send in ground arith)
    | inr (r', e) ↦
        inr (omega arith, unfold i_send in ground arith, r', e, unfold i_send in ground arith)
  ]
]

pub now_writing :
    (ch : Channel) → is_writing (if not (is_writing ch) then (enable_write ch).0 else ch) ≡ true
now_writing ch = elim (Bool-cases (is_writing ch)) [
  | inl writing ↦ rw writing writing
  | inr idle ↦ rw idle (interest_lem ch).2
]

pub i_send-SentPrefix :
    (script : List WriteResult) (ch : Channel) (bs : List ℕ) (r : Sent)
    → i_send script ch bs ≡ some r
    → SentPrefix ch bs r
unfolding i_send
i_send-SentPrefix script ch [] r h =
    subst (SentPrefix ch []) (ground arith) (nothing-SentPrefix ch ch [] (λ w. w))
i_send-SentPrefix [] ch (x ∷ xs) r h = cc
i_send-SentPrefix (wrote n ∷ script) ch (x ∷ xs) r h = elim (i_send-wrote n script ch x xs r h) [
  | inl (z, e) ↦ subst (SentPrefix ch (x ∷ xs)) e (nothing-SentPrefix ch ch (x ∷ xs) (λ w. w))
  | inr (pos_n, fits, r', e, same) ↦
      let p = i_send-SentPrefix script ch (drop n (x ∷ xs)) r' e in
      subst (SentPrefix ch (x ∷ xs)) same (record {
        short = omega (arith, p.short, length-drop n (x ∷ xs));
        bytes =
            ap (λ c. take n (x ∷ xs) ++ c) p.bytes
            ∙ sym (take-more n r'.sended (n + r'.sended) (x ∷ xs) refl);
        writes = p.writes;
      })
]
i_send-SentPrefix (write_eintr ∷ script) ch (x ∷ xs) r h = i_send-SentPrefix script ch (x ∷ xs) r h
i_send-SentPrefix (write_eagain ∷ script) ch (x ∷ xs) r h =
    subst (SentPrefix ch (x ∷ xs))
      {x = nothing_sent (if not (is_writing ch) then (enable_write ch).0 else ch)} (ground arith)
      (nothing-SentPrefix ch (if not (is_writing ch) then (enable_write ch).0 else ch) (x ∷ xs)
        (λ w. now_writing ch))
i_send-SentPrefix (write_error ∷ script) ch (x ∷ xs) r h =
    subst (SentPrefix ch (x ∷ xs)) {x = nothing_sent ch} (ground arith)
      (nothing-SentPrefix ch ch (x ∷ xs) (λ w. w))

-- Without an error, `ISend` sends everything or leaves the channel writing.
pub i_send_complete :
    (script : List WriteResult) (ch : Channel) (bs : List ℕ) (r : Sent)
    → NoError script
    → i_send script ch bs ≡ some r
    → (r.sended ≡ length bs) ⊎ (is_writing r.channel ≡ true)
unfolding i_send
i_send_complete script ch [] r ne h = inl (ground arith)
i_send_complete [] ch (x ∷ xs) r ne h = cc
i_send_complete (wrote n ∷ script) ch (x ∷ xs) r ne h = elim (i_send-wrote n script ch x xs r h) [
  | inl (z, e) ↦ absurd (omega arith)
  | inr (pos_n, fits, r', e, same) ↦
      let p = i_send_complete script ch (drop n (x ∷ xs)) r' ne.1 e in
      ground (arith, p, length-drop n (x ∷ xs))
]
i_send_complete (write_eintr ∷ script) ch (x ∷ xs) r ne h =
    i_send_complete script ch (x ∷ xs) r ne h
i_send_complete (write_eagain ∷ script) ch (x ∷ xs) r ne h = inr (
    subst (λ (q : Sent). is_writing q.channel ≡ true)
      {x = nothing_sent (if not (is_writing ch) then (enable_write ch).0 else ch)} {y = r}
      (ground arith) (now_writing ch))
i_send_complete (write_error ∷ script) ch (x ∷ xs) r ne h = elim ne [ ]
