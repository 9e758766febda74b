-- ===== src/Prelude/Tally.antt =====
-- How many of the first numbers pass a test.
use Prim.Native.Nat.{ℕ, zero, suc, ◌+◌, ◌≤◌, ◌<◌}
use mathlib.Core.Path.{◌≡◌, refl}
use mathlib.Core.Logic.{inl, inr}
use mathlib.Core.Bool.{Bool, true, false}
use native.Mathlib.Omega.{arith}
use native.Mathlib.Numerals.{add-one}
use os_course_design.Prelude.Tests.{◌==◌, if◌then◌else◌, Bool-cases}

unfoldable pub tally : (ℕ → Bool) → ℕ → ℕ
tally f zero = 0
tally f (suc n) = tally f n + (if f n then 1 else 0)

-- A test with one entry changed.
abbrev pub update : (ℕ → Bool) → ℕ → Bool → ℕ → Bool
update f k v j = if j == k then v else f j

pub tally-ext : (f g : ℕ → Bool) (n : ℕ) → ((j : ℕ) → j < n → f j ≡ g j) → tally f n ≡ tally g n
unfolding tally
tally-ext f g zero h = refl
tally-ext f g (suc n) h =
    ground (arith, tally-ext f g n (λ j l. h j (omega arith)), h n (omega arith))

tally-update_above :
    (f : ℕ → Bool) (k n : ℕ) (v : Bool) → n ≤ k → tally (update f k v) n ≡ tally f n
tally-update_above f k n v h = tally-ext _ f n (λ j l. ground arith)

-- A changed entry moves the tally by at most one.
pub tally-update :
    (f : ℕ → Bool) (k n : ℕ) (v : Bool)
    → k < n
    → tally (update f k v) n + (if f k then 1 else 0) ≡ tally f n + (if v then 1 else 0)
unfolding tally
tally-update f k zero v h = elim h [ ]
tally-update f k (suc n) v h = elim (Bool-cases (n == k)) [
  | inl e ↦ ground (arith, tally-update_above f k n v)
  | inr e ↦ ground (arith, tally-update f k n v)
]

pub tally_positive : (f : ℕ → Bool) (k n : ℕ) → k < n → f k ≡ true → 0 < tally f n
unfolding tally
tally_positive f k zero h t = elim h [ ]
tally_positive f k (suc n) h t = elim (Bool-cases (n == k)) [
  | inl e ↦ ground arith
  | inr e ↦ ground (arith, tally_positive f k n)
]

pub tally-le : (f : ℕ → Bool) (n : ℕ) → tally f n ≤ n
unfolding tally
tally-le f zero = omega arith
tally-le f (suc n) = ground (arith, tally-le f n)

pub tally_mono : (f : ℕ → Bool) (m n : ℕ) → m ≤ n → tally f m ≤ tally f n
unfolding tally
tally_mono f m zero h = ground arith
tally_mono f m (suc n) h = elim (Bool-cases (m == suc n)) [
  | inl e ↦ ground arith
  | inr e ↦ ground (arith, tally_mono f m n)
]

pub tally_none : (f : ℕ → Bool) (n : ℕ) → ((j : ℕ) → j < n → f j ≡ false) → tally f n ≡ 0
unfolding tally
tally_none f zero h = refl
tally_none f (suc n) h =
    ground (arith, tally_none f n (λ j l. h j (omega arith)), h n (omega arith))

pub tally_all : (f : ℕ → Bool) (n : ℕ) → ((j : ℕ) → j < n → f j ≡ true) → tally f n ≡ n
unfolding tally
tally_all f zero h = refl
tally_all f (suc n) h = ground (arith, tally_all f n (λ j l. h j (omega arith)), h n (omega arith))

pub tally-add_one : (f : ℕ → Bool) (n : ℕ) → tally f (n + 1) ≡ tally f n + (if f n then 1 else 0)
unfolding tally
tally-add_one f n = rw add-one
