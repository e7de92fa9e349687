-- ===== src/Net/Logger/Rotation.antt =====
-- The rotation of a logger's file in net/log.cc, over a run of calls.
use jnet.Base.{
  ℕ, ◌<◌, ◌≤◌, ◌≡◌, inl, inr, refl, sym, subst, Bool, true, false, ◌||◌, Option, none, some, List,
  [], ◌∷◌, ◌++◌, arith, ◌==◌, if◌then◌else◌, Bool-cases,
}
use jnet.Net.Logger.{
  Logger, Effect, Zone, period, is_empty, maybe_rotate, renames, complains, redirect,
}

-- A call of `MaybeRotate`: its time, and what the system calls answer.
pub record Call : Type 0 where
  pub now : ℕ
  pub stamp : List ℕ
  pub renamed : Bool
  pub opened : Option ℕ

abbrev pub rotate : Zone → Call → Logger → Logger × List Effect
rotate zone c l = maybe_rotate zone c.now c.stamp c.renamed c.opened l

-- Whether a call renames the file, or tries to.
abbrev pub acts : List Effect → Bool
acts [] = false
acts (e ∷ es) = true

-- The periods of the calls that rename the file, in order.
unfoldable pub rotations : Zone → List Call → Logger → List ℕ
unfolding maybe_rotate
rotations zone [] l = []
rotations zone (c ∷ cs) l =
    let (m, effects) = rotate zone c l in
    let later = rotations zone cs m in
    if acts effects then period zone l.rotate_interval c.now ∷ later else later

-- Calls with times that never go back, from the period `p` on.
abbrev pub AreOrdered : Zone → ℕ → ℕ → List Call → Type 0
AreOrdered zone interval p [] = Unit {0}
AreOrdered zone interval p (c ∷ cs) =
    (p ≤ period zone interval c.now) × AreOrdered zone interval (period zone interval c.now) cs

-- Numbers that rise, all above `p`.
abbrev pub Rise : ℕ → List ℕ → Type 0
Rise p [] = Unit {0}
Rise p (q ∷ qs) = (p < q) × Rise q qs

abbrev stays : Zone → Call → Logger → Bool
stays zone c l =
    is_empty l.filename
    || period zone l.rotate_interval c.now == period zone l.rotate_interval l.last_rotate

abbrev marked : Call → Logger → Logger
marked c l = record l { last_rotate = c.now; real_rotate = c.now }

rotate-stays :
    (zone : Zone) (c : Call) (l : Logger) → stays zone c l ≡ true → rotate zone c l ≡ (l, [])
unfolding maybe_rotate
rotate-stays zone c l h = ground (arith, h)

rotate-marked :
    (zone : Zone) (c : Call) (l : Logger)
    → l.real_rotate ≡ l.last_rotate
    → stays zone c l ≡ false
    → (e : Effect) × (es : List Effect) × (rotate zone c l ≡ (marked c l, e ∷ es))
unfolding maybe_rotate
rotate-marked zone c l synced h = (
  renames l.filename (l.filename ++ c.stamp),
  if c.renamed
      then elim c.opened [ none ↦ complains ∷ [] | some fd ↦ redirect fd l.fd ]
      else complains ∷ [],
  ground (arith, synced, h),
)

AreOrdered-le :
    (zone : Zone) (interval p q : ℕ) (cs : List Call)
    → p ≤ q
    → AreOrdered zone interval q cs
    → AreOrdered zone interval p cs
AreOrdered-le zone interval p q [] low h = tt
AreOrdered-le zone interval p q (c ∷ cs) low (first, rest) = (omega arith, rest)

rotations-stays :
    (zone : Zone) (c : Call) (cs : List Call) (l : Logger)
    → rotate zone c l ≡ (l, [])
    → rotations zone (c ∷ cs) l ≡ rotations zone cs l
unfolding rotations
rotations-stays zone c cs l h = ground (arith, h)

rotations-marked :
    (zone : Zone) (c : Call) (cs : List Call) (l m : Logger) (e : Effect) (es : List Effect)
    → rotate zone c l ≡ (m, e ∷ es)
    → rotations zone (c ∷ cs) l ≡ period zone l.rotate_interval c.now ∷ rotations zone cs m
unfolding rotations
rotations-marked zone c cs l m e es h = ground (arith, h)

later-period :
    (zone : Zone) (c : Call) (l : Logger)
    → stays zone c l ≡ false
    → period zone l.rotate_interval l.last_rotate ≤ period zone l.rotate_interval c.now
    → period zone l.rotate_interval l.last_rotate < period zone l.rotate_interval c.now
later-period zone c l moved low = ground (arith, moved)

-- A run of calls whose times never go back, on a logger that has rotated last when it says: the
-- periods in which the file is renamed, or a renaming is tried, rise strictly, from the period of the
-- last rotation on. So there is at most one renaming in a period, however many messages there are.
pub rotations-Rise :
    (zone : Zone) (cs : List Call) (l : Logger)
    → l.real_rotate ≡ l.last_rotate
    → AreOrdered zone l.rotate_interval (period zone l.rotate_interval l.last_rotate) cs
    → Rise (period zone l.rotate_interval l.last_rotate) (rotations zone cs l)
rotations-Rise zone [] l synced ordered = unfold rotations in tt
rotations-Rise zone (c ∷ cs) l synced (low, rest) =
    let at = period zone l.rotate_interval in
    elim (Bool-cases (stays zone c l)) [
      | inl quiet ↦
          subst (Rise (at l.last_rotate))
            (sym (rotations-stays zone c cs l (rotate-stays zone c l quiet)))
            (rotations-Rise zone cs l synced
              (AreOrdered-le zone l.rotate_interval (at l.last_rotate) (at c.now) cs low rest))
      | inr moved ↦
          let (e, es, turned) = rotate-marked zone c l synced moved in
          subst (Rise (at l.last_rotate))
            (sym (rotations-marked zone c cs l (marked c l) e es turned))
            (later-period zone c l moved low, rotations-Rise zone cs (marked c l) refl rest)
    ]
