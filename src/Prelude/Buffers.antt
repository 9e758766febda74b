-- ===== src/Prelude/Buffers.antt =====
-- Byte buffers: copying into one, cutting a piece out of one, and comparing two byte by byte.
use Prim.Native.Nat.{ℕ, zero, suc, ◌+◌, ◌-◌, ◌≤◌, ◌<◌}
use mathlib.Core.Path.{◌≡◌, refl, ap, ap₂, sym, ◌∙◌}
use mathlib.Core.Bool.{true, ◌&&◌}
use mathlib.Core.List.{List, [], ◌∷◌}
use native.Mathlib.Omega.{arith}
use os_course_design.Prelude.Tests.{ltb, leb, if◌then◌else◌}
use os_course_design.Prelude.Lists.{length, get_or, take, drop, length-take}

-- `memcpy` to an offset of a buffer. What would go past the end is lost.
unfoldable pub overwrite : List ℕ → ℕ → List ℕ → List ℕ
overwrite [] off bytes = []
overwrite (x ∷ xs) zero [] = x ∷ xs
overwrite (x ∷ xs) zero (b ∷ bytes) = b ∷ overwrite xs zero bytes
overwrite (x ∷ xs) (suc off) bytes = x ∷ overwrite xs off bytes

abbrev pub segment : ℕ → ℕ → List ℕ → List ℕ
segment off count buffer = take count (drop off buffer)

pub length-overwrite :
    (buffer : List ℕ) (off : ℕ) (bytes : List ℕ)
    → length (overwrite buffer off bytes) ≡ length buffer
unfolding overwrite
length-overwrite [] off bytes = refl
length-overwrite (x ∷ xs) zero [] = refl
length-overwrite (x ∷ xs) zero (b ∷ bytes) = ap suc (length-overwrite xs zero bytes)
length-overwrite (x ∷ xs) (suc off) bytes = ap suc (length-overwrite xs off bytes)

pub length-drop : (n : ℕ) (xs : List ℕ) → length (drop n xs) ≡ length xs - n
length-drop zero xs = omega arith
length-drop (suc n) [] = omega arith
length-drop (suc n) (x ∷ xs) = omega (arith, length-drop n xs)

pub get_or-overwrite :
    (buffer : List ℕ) (off : ℕ) (bytes : List ℕ) (j : ℕ)
    → get_or (overwrite buffer off bytes) j 0 ≡ (
        if leb off j && (ltb j (off + length bytes) && ltb j (length buffer))
        then get_or bytes (j - off) 0
        else get_or buffer j 0)
unfolding overwrite
get_or-overwrite [] off bytes j = ground arith
get_or-overwrite (x ∷ xs) zero [] j = ground arith
get_or-overwrite (x ∷ xs) zero (b ∷ bytes) zero = ground arith
get_or-overwrite (x ∷ xs) zero (b ∷ bytes) (suc j) =
    ground (arith, get_or-overwrite xs zero bytes j)
get_or-overwrite (x ∷ xs) (suc off) bytes zero = ground arith
get_or-overwrite (x ∷ xs) (suc off) bytes (suc j) = ground (arith, get_or-overwrite xs off bytes j)

pub get_or-take :
    (n : ℕ) (xs : List ℕ) (j : ℕ) → get_or (take n xs) j 0 ≡ (if ltb j n then get_or xs j 0 else 0)
get_or-take zero xs j = ground arith
get_or-take (suc n) [] j = ground arith
get_or-take (suc n) (x ∷ xs) zero = ground arith
get_or-take (suc n) (x ∷ xs) (suc j) = ground (arith, get_or-take n xs j)

pub get_or-drop : (n : ℕ) (xs : List ℕ) (j : ℕ) → get_or (drop n xs) j 0 ≡ get_or xs (n + j) 0
get_or-drop zero xs j = ground arith
get_or-drop (suc n) [] j = ground arith
get_or-drop (suc n) (x ∷ xs) j = ground (arith, get_or-drop n xs j)

pub get_or_past : (xs : List ℕ) (j : ℕ) → length xs ≤ j → get_or xs j 0 ≡ 0
get_or_past [] j h = refl
get_or_past (x ∷ xs) zero h = absurd (omega arith)
get_or_past (x ∷ xs) (suc j) h = get_or_past xs j (omega arith)

-- Two buffers of one length with the same bytes are the same.
pub bytes_ext :
    (xs ys : List ℕ)
    → length xs ≡ length ys
    → ((j : ℕ) → j < length xs → get_or xs j 0 ≡ get_or ys j 0)
    → xs ≡ ys
bytes_ext [] [] e h = refl
bytes_ext [] (y ∷ ys) e h = absurd (omega arith)
bytes_ext (x ∷ xs) [] e h = absurd (omega arith)
bytes_ext (x ∷ xs) (y ∷ ys) e h =
    ap₂ (◌∷◌) (h 0 (omega arith)) (bytes_ext xs ys (omega arith) (λ j l. h (suc j) (omega arith)))

pub length-segment :
    (off count : ℕ) (buffer : List ℕ)
    → off + count ≤ length buffer
    → length (segment off count buffer) ≡ count
length-segment off count buffer h =
    omega (arith, length-take count (drop off buffer), length-drop off buffer)

pub get_or-segment :
    (off count : ℕ) (buffer : List ℕ) (j : ℕ)
    → get_or (segment off count buffer) j 0 ≡ (if ltb j count then get_or buffer (off + j) 0 else 0)
get_or-segment off count buffer j =
    ground (arith, get_or-take count (drop off buffer) j, get_or-drop off buffer j)

-- The piece that was copied in.
pub segment-overwrite_self :
    (buffer : List ℕ) (off : ℕ) (bytes : List ℕ)
    → off + length bytes ≤ length buffer
    → segment off (length bytes) (overwrite buffer off bytes) ≡ bytes
segment-overwrite_self buffer off bytes h =
    bytes_ext (segment off (length bytes) (overwrite buffer off bytes)) bytes
      (length-segment off (length bytes) (overwrite buffer off bytes)
        (omega (arith, length-overwrite buffer off bytes)))
      (λ j l. ground (
        arith,
        get_or-segment off (length bytes) (overwrite buffer off bytes) j,
        get_or-overwrite buffer off bytes (off + j),
        length-segment off (length bytes) (overwrite buffer off bytes),
        length-overwrite buffer off bytes,
        get_or_past bytes j,
        ap (λ k. get_or bytes k 0) (same j),
      ))
  where
    same : (j : ℕ) → off + j - off ≡ j
    same j = omega arith

-- A piece beside it.
pub segment-overwrite_apart :
    (buffer : List ℕ) (off : ℕ) (bytes : List ℕ) (k count : ℕ)
    → k + count ≤ length buffer
    → (if leb (k + count) off then true else leb (off + length bytes) k) ≡ true
    → segment k count (overwrite buffer off bytes) ≡ segment k count buffer
segment-overwrite_apart buffer off bytes k count fits apart =
    bytes_ext (segment k count (overwrite buffer off bytes)) (segment k count buffer)
      (length-segment k count (overwrite buffer off bytes)
          (omega (arith, length-overwrite buffer off bytes))
        ∙ sym (length-segment k count buffer fits))
      (λ j l. ground (
        arith,
        get_or-segment k count (overwrite buffer off bytes) j,
        get_or-segment k count buffer j,
        get_or-overwrite buffer off bytes (k + j),
      ))
