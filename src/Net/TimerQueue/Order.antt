-- ===== src/Net/TimerQueue/Order.antt =====
-- The order of the timers in `timers_` of net/timerqueue.h.
use jnet.Base.{◌<◌, ◌≡◌, refl, ap, ◌⊎◌, inl, inr, true, false, List, [], ◌∷◌, arith}
use jnet.Net.TimerQueue.{Entry, before, insert_entry, erase_entry, is_earliest}

abbrev pub Before : Entry → Entry → Type 0
Before a b = (a.key < b.key) ⊎ ((a.key ≡ b.key) × (a.timer < b.timer))

abbrev pub AllAfter : Entry → List Entry → Type 0
AllAfter a [] = Unit {0}
AllAfter a (x ∷ xs) = Before a x × AllAfter a xs

abbrev pub AllBefore : List Entry → Entry → Type 0
AllBefore [] a = Unit {0}
AllBefore (x ∷ xs) a = Before x a × AllBefore xs a

abbrev pub IsSorted : List Entry → Type 0
IsSorted [] = Unit {0}
IsSorted (x ∷ xs) = AllAfter x xs × IsSorted xs

before-Before : (a b : Entry) → before a b ≡ true → Before a b
before-Before a b h = ground arith

pub Before-trans : (a b c : Entry) → Before a b → Before b c → Before a c
Before-trans a b c p q = omega arith

-- Of two entries one is before the other, or they are the same.
pub compare_lem :
    (a b : Entry) → Before a b ⊎ (Before b a ⊎ ((a.key ≡ b.key) × (a.timer ≡ b.timer)))
compare_lem a b = omega arith

pub Before-before : (a b : Entry) → Before a b → (before a b ≡ true) × (before b a ≡ false)
Before-before a b h = ground arith

pub same-before :
    (a b : Entry) → a.key ≡ b.key → a.timer ≡ b.timer → (before a b ≡ false) × (before b a ≡ false)
same-before a b h k = ground arith

AllAfter-trans : (a b : Entry) (xs : List Entry) → Before a b → AllAfter b xs → AllAfter a xs
AllAfter-trans a b [] p q = tt
AllAfter-trans a b (x ∷ xs) p (q, qs) = (Before-trans a b x p q, AllAfter-trans a b xs p qs)

insert-AllAfter :
    (a e : Entry) (xs : List Entry) → Before a e → AllAfter a xs → AllAfter a (insert_entry e xs)
unfolding insert_entry
insert-AllAfter a e [] p q = (p, tt)
insert-AllAfter a e (x ∷ xs) p (q, qs) = elim (compare_lem e x) [
  | inl lt ↦ rw (Before-before e x lt).0 (p, (q, qs))
  | inr (inl gt) ↦
      rw ((Before-before x e gt).1, (Before-before x e gt).0) (q, insert-AllAfter a e xs p qs)
  | inr (inr (k, t)) ↦ rw ((same-before e x k t).0, (same-before e x k t).1) (q, qs)
]

pub insert-IsSorted : (e : Entry) (xs : List Entry) → IsSorted xs → IsSorted (insert_entry e xs)
unfolding insert_entry
insert-IsSorted e [] s = (tt, tt)
insert-IsSorted e (x ∷ xs) (after, s) = elim (compare_lem e x) [
  | inl lt ↦ rw (Before-before e x lt).0 ((lt, AllAfter-trans e x xs lt after), (after, s))
  | inr (inl gt) ↦
      rw ((Before-before x e gt).1, (Before-before x e gt).0)
        (insert-AllAfter x e xs gt after, insert-IsSorted e xs s)
  | inr (inr (k, t)) ↦ rw ((same-before e x k t).0, (same-before e x k t).1) (after, s)
]

erase-AllAfter : (a e : Entry) (xs : List Entry) → AllAfter a xs → AllAfter a (erase_entry e xs)
unfolding erase_entry
erase-AllAfter a e [] q = tt
erase-AllAfter a e (x ∷ xs) (q, qs) = elim (compare_lem e x) [
  | inl lt ↦ rw (Before-before e x lt).0 (q, qs)
  | inr (inl gt) ↦
      rw ((Before-before x e gt).1, (Before-before x e gt).0) (q, erase-AllAfter a e xs qs)
  | inr (inr (k, t)) ↦ rw ((same-before e x k t).0, (same-before e x k t).1) qs
]

pub erase-IsSorted : (e : Entry) (xs : List Entry) → IsSorted xs → IsSorted (erase_entry e xs)
unfolding erase_entry
erase-IsSorted e [] s = tt
erase-IsSorted e (x ∷ xs) (after, s) = elim (compare_lem e x) [
  | inl lt ↦ rw (Before-before e x lt).0 (after, s)
  | inr (inl gt) ↦
      rw ((Before-before x e gt).1, (Before-before x e gt).0)
        (erase-AllAfter x e xs after, erase-IsSorted e xs s)
  | inr (inr (k, t)) ↦ rw ((same-before e x k t).0, (same-before e x k t).1) s
]

-- No entry of the list is this one.
abbrev pub IsFresh : Entry → List Entry → Type 0
IsFresh e [] = Unit {0}
IsFresh e (x ∷ xs) = (Before e x ⊎ Before x e) × IsFresh e xs

pub erase-insert :
    (e : Entry) (xs : List Entry) → IsFresh e xs → erase_entry e (insert_entry e xs) ≡ xs
unfolding insert_entry erase_entry
erase-insert e [] f = rw (same-before e e refl refl).0 refl
erase-insert e (x ∷ xs) (inl lt, f) =
    rw (Before-before e x lt).0 (rw (same-before e e refl refl).0 refl)
erase-insert e (x ∷ xs) (inr gt, f) =
    rw ((Before-before x e gt).1, (Before-before x e gt).0)
      (rw ((Before-before x e gt).1, (Before-before x e gt).0)
        (ap (λ r. x ∷ r) (erase-insert e xs f)))

-- The head of the list after an entry came in, and what `Insert` says of it.
pub insert-head :
    (e x : Entry) (xs : List Entry)
    → (y : Entry) × (ys : List Entry) × (insert_entry e (x ∷ xs) ≡ y ∷ ys)
      × (((is_earliest e.key (x ∷ xs) ≡ true) × (y.key ≡ e.key))
          ⊎ ((is_earliest e.key (x ∷ xs) ≡ false) × (y.key ≡ x.key)))
unfolding insert_entry
insert-head e x xs = elim (compare_lem e x) [
  | inl lt ↦ (e, x ∷ xs, rw (Before-before e x lt).0 refl, ground arith)
  | inr (inl gt) ↦ (
    x,
    insert_entry e xs,
    rw ((Before-before x e gt).1, (Before-before x e gt).0) refl,
    inr (ground arith),
  )
  | inr (inr (k, t)) ↦
      (x, xs, rw ((same-before e x k t).0, (same-before e x k t).1) refl, inr (ground arith))
]

pub erase-IsFresh : (e : Entry) (xs : List Entry) → IsFresh e xs → erase_entry e xs ≡ xs
unfolding erase_entry
erase-IsFresh e [] f = refl
erase-IsFresh e (x ∷ xs) (inl lt, f) = rw (Before-before e x lt).0 refl
erase-IsFresh e (x ∷ xs) (inr gt, f) =
    rw ((Before-before x e gt).1, (Before-before x e gt).0) (ap (λ r. x ∷ r) (erase-IsFresh e xs f))
