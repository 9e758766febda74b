-- ===== src/Bitmap/Bits.antt =====
-- The bit of a block inside a byte of the bitmap.
use os_course_design.Prelude.{
  ℕ, ◌-◌, ◌^◌, ◌<◌, ◌≡◌, refl, Bool, true, false, ◌&&◌, ltb, ◌==◌, if◌then◌else◌, bit_and, bit_or,
  passes, passes_at, agree, agree-eq, ltb→lt, and_left, and_right,
}

-- `!(byte & (1 << bit))`
unfoldable pub bit_clear : ℕ → ℕ → Bool
bit_clear byte bit = bit_and byte (2 ^ bit) == 0

-- `byte |= mask` and `byte &= ~mask`
unfoldable pub raise_bit : ℕ → ℕ → ℕ
raise_bit byte bit = bit_or byte (2 ^ bit)

unfoldable pub lower_bit : ℕ → ℕ → ℕ
lower_bit byte bit = bit_and byte (255 - 2 ^ bit)

abbrev raise_test : ℕ → ℕ → ℕ → Bool
raise_test b k j = agree (bit_clear (raise_bit b k) j) (if j == k then false else bit_clear b j)

abbrev lower_test : ℕ → ℕ → ℕ → Bool
lower_test b k j = agree (bit_clear (lower_bit b k) j) (if j == k then true else bit_clear b j)

abbrev range_test : ℕ → ℕ → Bool
range_test b k = ltb (raise_bit b k) 256 && ltb (lower_bit b k) 256

raise_table : passes (λ b. passes (λ k. passes (raise_test b k) 8) 8) 256 ≡ true
unfolding passes bit_clear raise_bit lower_bit
raise_table = refl

lower_table : passes (λ b. passes (λ k. passes (lower_test b k) 8) 8) 256 ≡ true
unfolding passes bit_clear raise_bit lower_bit
lower_table = refl

range_table : passes (λ b. passes (range_test b) 8) 256 ≡ true
unfolding passes bit_clear raise_bit lower_bit
range_table = refl

pub bit_clear-raise_bit :
    (b k j : ℕ)
    → b < 256
    → k < 8
    → j < 8
    → bit_clear (raise_bit b k) j ≡ (if j == k then false else bit_clear b j)
bit_clear-raise_bit b k j hb hk hj =
    let at_b = passes_at _ 256 b hb raise_table in
    let at_k = passes_at _ 8 k hk at_b in agree-eq _ _ (passes_at _ 8 j hj at_k)

pub bit_clear-lower_bit :
    (b k j : ℕ)
    → b < 256
    → k < 8
    → j < 8
    → bit_clear (lower_bit b k) j ≡ (if j == k then true else bit_clear b j)
bit_clear-lower_bit b k j hb hk hj =
    let at_b = passes_at _ 256 b hb lower_table in
    let at_k = passes_at _ 8 k hk at_b in agree-eq _ _ (passes_at _ 8 j hj at_k)

bytes_range : (b k : ℕ) → b < 256 → k < 8 → range_test b k ≡ true
bytes_range b k hb hk = passes_at _ 8 k hk (passes_at _ 256 b hb range_table)

pub raise_bit-lt : (b k : ℕ) → b < 256 → k < 8 → raise_bit b k < 256
raise_bit-lt b k hb hk = ltb→lt _ _ (and_left _ _ (bytes_range b k hb hk))

pub lower_bit-lt : (b k : ℕ) → b < 256 → k < 8 → lower_bit b k < 256
lower_bit-lt b k hb hk = ltb→lt _ _ (and_right _ _ (bytes_range b k hb hk))
