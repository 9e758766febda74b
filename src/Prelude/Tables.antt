-- ===== src/Prelude/Tables.antt =====
-- Facts on small ranges, checked at every value by evaluation.
use Prim.Native.Nat.{ℕ, zero, suc, ◌<◌}
use mathlib.Core.Path.{◌≡◌, refl, subst, sym}
use mathlib.Core.Logic.{inl, inr}
use mathlib.Core.Bool.{Bool, true, false}
use native.Mathlib.Omega.{arith}
use os_course_design.Prelude.Tests.{◌==◌, if◌then◌else◌, Bool-cases, ==_iff}

-- The test passes at every number below the bound.
unfoldable pub passes : (ℕ → Bool) → ℕ → Bool
passes test zero = true
passes test (suc bound) = let earlier = passes test bound in if test bound then earlier else false

pub passes_at :
    (test : ℕ → Bool) (bound k : ℕ) → k < bound → passes test bound ≡ true → test k ≡ true
unfolding passes
passes_at test zero k below ok = absurd (omega arith)
passes_at test (suc bound) k below ok = elim (Bool-cases (test bound)) [
  | inr fails ↦ absurd (ground (arith, ok, fails))
  | inl holds ↦ elim (Bool-cases (k == bound)) [
    | inl same ↦ subst (λ j. test j ≡ true) (sym ((==_iff k bound).0 same)) holds
    | inr other ↦ passes_at test bound k (ground arith) (ground (arith, ok, holds))
  ]
]

-- Two truth values agree.
abbrev pub agree : Bool → Bool → Bool
agree a b = if a then b else if b then false else true

pub agree-eq : (a b : Bool) → agree a b ≡ true → a ≡ b
agree-eq true b ok = ground arith
agree-eq false true ok = ground arith
agree-eq false false ok = refl
