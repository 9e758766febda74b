-- ===== src/Prelude/Texts.antt =====
-- Texts as lists of bytes: equality, C strings, and numbers of four bytes.
use Prim.Native.Nat.{ℕ, zero, suc, ◌+◌, ◌*◌, ◌/◌, ◌%◌, ◌^◌, ◌≤◌, ◌<◌}
use mathlib.Core.Path.{◌≡◌, refl, ap, ap₂}
use mathlib.Core.Logic.{inl, inr}
use mathlib.Core.Bool.{Bool, true, false, ◌&&◌}
use mathlib.Core.List.{List, [], ◌∷◌, ◌++◌}
use native.Mathlib.Omega.{arith}
use os_course_design.Prelude.Tests.{◌==◌, if◌then◌else◌, Bool-cases, ==_iff, and_left, and_right}
use os_course_design.Prelude.Lists.{length}

unfoldable pub text_eq : List ℕ → List ℕ → Bool
text_eq [] [] = true
text_eq [] (y ∷ ys) = false
text_eq (x ∷ xs) [] = false
text_eq (x ∷ xs) (y ∷ ys) = x == y && text_eq xs ys

pub text_eq_self : (xs : List ℕ) → text_eq xs xs ≡ true
unfolding text_eq
text_eq_self [] = refl
text_eq_self (x ∷ xs) = ground (arith, text_eq_self xs)

pub eq_of_text_eq : (xs ys : List ℕ) → text_eq xs ys ≡ true → xs ≡ ys
unfolding text_eq
eq_of_text_eq [] [] h = refl
eq_of_text_eq [] (y ∷ ys) h = absurd (ground arith)
eq_of_text_eq (x ∷ xs) [] h = absurd (ground arith)
eq_of_text_eq (x ∷ xs) (y ∷ ys) h =
    ap₂ (◌∷◌) ((==_iff x y).0 (and_left _ _ h)) (eq_of_text_eq xs ys (and_right _ _ h))

-- The bytes before the first NUL.
unfoldable pub c_string : List ℕ → List ℕ
c_string [] = []
c_string (x ∷ xs) = if x == 0 then [] else x ∷ c_string xs

-- `strcmp(a, b) == 0`
abbrev pub same_string : List ℕ → List ℕ → Bool
same_string a b = text_eq (c_string a) (c_string b)

-- `strncpy` into `n` bytes: padded with NULs.
unfoldable pub strncpy : ℕ → List ℕ → List ℕ
strncpy zero s = []
strncpy (suc n) [] = 0 ∷ strncpy n []
strncpy (suc n) (x ∷ s) = x ∷ strncpy n (if x == 0 then [] else s)

pub length-strncpy : (n : ℕ) (s : List ℕ) → length (strncpy n s) ≡ n
unfolding strncpy
length-strncpy zero s = refl
length-strncpy (suc n) [] = ap suc (length-strncpy n [])
length-strncpy (suc n) (x ∷ s) = ap suc (length-strncpy n _)

-- A copied C string that fits is the string itself.
pub c_string-strncpy :
    (n : ℕ) (s tail : List ℕ) → length s ≤ n → c_string (strncpy n s ++ 0 ∷ tail) ≡ c_string s
unfolding c_string strncpy
c_string-strncpy zero [] tail h = refl
c_string-strncpy zero (x ∷ s) tail h = absurd (omega arith)
c_string-strncpy (suc n) [] tail h = refl
c_string-strncpy (suc n) (x ∷ s) tail h = elim (Bool-cases (x == 0)) [
  | inl e ↦ rw (e, c_string) refl
  | inr e ↦ rw (e, c_string) (ap (◌∷◌ x) (c_string-strncpy n s tail (omega arith)))
]

-- A `uint32_t` as its four bytes, the low one first.
abbrev pub word_bytes : ℕ → List ℕ
word_bytes n = n % 256 ∷ n / 256 % 256 ∷ n / 65536 % 256 ∷ n / 16777216 % 256 ∷ []

-- The number in the first four bytes.
unfoldable pub word_of : List ℕ → ℕ
word_of (a ∷ b ∷ c ∷ d ∷ rest) = a + b * 256 + c * 65536 + d * 16777216
word_of _ = 0

pub word_of-word_bytes : (n : ℕ) (rest : List ℕ) → n < 2 ^ 32 → word_of (word_bytes n ++ rest) ≡ n
unfolding word_of
word_of-word_bytes n rest h = omega arith

pub text_eq_comm : (xs ys : List ℕ) → text_eq xs ys ≡ text_eq ys xs
unfolding text_eq
text_eq_comm [] [] = refl
text_eq_comm [] (y ∷ ys) = refl
text_eq_comm (x ∷ xs) [] = refl
text_eq_comm (x ∷ xs) (y ∷ ys) = ground (arith, text_eq_comm xs ys)
