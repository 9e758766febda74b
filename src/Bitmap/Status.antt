-- ===== src/Bitmap/Status.antt =====
-- Reading and changing the status of one block: `set_block_status`.
use os_course_design.Prelude.{
  ℕ, ◌+◌, ◌-◌, ◌/◌, ◌%◌, ◌≤◌, ◌<◌, ◌≡◌, ◌≢◌, refl, ◌∙◌, inl, inr, Bool, true, false, not, ◌&&◌,
  arith, ltb, leb, ◌==◌, if◌then◌else◌, Bool-cases, length, length-set, get_or, set,
  get_or-set_self, get_or-set_ne, All-get_or, All-set, List, update, tally-ext, tally-update,
  tally_positive, tally-le, add32, ltb→lt,
}
use os_course_design.Bitmap.{FreeBitmap, is_block_free, set_block_status, IsValid}
use os_course_design.Bitmap.Bits.{
  bit_clear, raise_bit, lower_bit, bit_clear-raise_bit, bit_clear-lower_bit, raise_bit-lt,
  lower_bit-lt,
}

-- The bit of block `j` in the byte that holds it.
bit_at : List ℕ → ℕ → Bool
bit_at bytes j = bit_clear (get_or bytes (j / 8) 0) (j % 8)

-- Replacing the byte of block `k` so that only the bit of `k` changes.
bit_at-set :
    (bytes : List ℕ) (k j byte : ℕ) (v : Bool)
    → k / 8 < length bytes
    → ((i : ℕ)
        → i < 8
        → bit_clear byte i ≡ (if i == k % 8 then v else bit_clear (get_or bytes (k / 8) 0) i))
    → bit_at (set bytes (k / 8) byte) j ≡ update (bit_at bytes) k v j
unfolding bit_at
bit_at-set bytes k j byte v h law = elim (Bool-cases (j / 8 == k / 8)) [
  | inl e ↦
      let same : j / 8 ≡ k / 8 = ground arith in
      rw (same, get_or-set_self bytes (k / 8) byte 0 h) (ground (arith, law (j % 8) (omega arith)))
  | inr e ↦
      let other : k / 8 ≢ j / 8 = ground arith in
      rw (get_or-set_ne bytes (k / 8) (j / 8) byte 0 other) (ground arith)
]

is_block_free-bit_at :
    (fb : FreeBitmap) (j : ℕ)
    → is_block_free fb j ≡ (if leb fb.total_blocks j then false else bit_at fb.bitmap j)
unfolding is_block_free bit_at
is_block_free-bit_at fb j = refl

pub free_in_range : (fb : FreeBitmap) (k : ℕ) → is_block_free fb k ≡ true → k < fb.total_blocks
unfolding is_block_free
free_in_range fb k e = ground arith

byte_bound : (fb : FreeBitmap) (k : ℕ) → IsValid fb → get_or fb.bitmap (k / 8) 0 < 256
byte_bound fb k v = All-get_or (λ x. x < 256) fb.bitmap (k / 8) 0 v.bytes (omega arith)

module _ (fb : FreeBitmap) (k : ℕ) (v : IsValid fb) (hk : k < fb.total_blocks) where
  old : ℕ
  old = get_or fb.bitmap (k / 8) 0

  bit_at-raise :
      (j : ℕ)
      → bit_at (set fb.bitmap (k / 8) (raise_bit old (k % 8))) j
        ≡ update (bit_at fb.bitmap) k false j
  unfolding old
  bit_at-raise j =
      bit_at-set fb.bitmap k j _ false (omega (arith, v.covers))
        λ i hi. bit_clear-raise_bit old (k % 8) i (byte_bound fb k v) (omega arith) hi

  bit_at-lower :
      (j : ℕ)
      → bit_at (set fb.bitmap (k / 8) (lower_bit old (k % 8))) j
        ≡ update (bit_at fb.bitmap) k true j
  unfolding old
  bit_at-lower j =
      bit_at-set fb.bitmap k j _ true (omega (arith, v.covers))
        λ i hi. bit_clear-lower_bit old (k % 8) i (byte_bound fb k v) (omega arith) hi

  free_positive : is_block_free fb k ≡ true → 0 < fb.free_blocks
  free_positive e =
      omega (arith, v.counted, tally_positive (is_block_free fb) k fb.total_blocks hk e)

  raised : FreeBitmap
  raised = record fb {
    bitmap = set fb.bitmap (k / 8) (raise_bit old (k % 8));
    free_blocks = fb.free_blocks - 1;
  }

  lowered : FreeBitmap
  lowered = record fb {
    bitmap = set fb.bitmap (k / 8) (lower_bit old (k % 8));
    free_blocks = add32 fb.free_blocks 1;
  }

  set_block_status-raised : is_block_free fb k ≡ true → set_block_status fb k true ≡ raised
  unfolding set_block_status raised old
  set_block_status-raised e = ground (arith, free_positive e)

  set_block_status-lowered : is_block_free fb k ≡ false → set_block_status fb k false ≡ lowered
  unfolding set_block_status lowered old
  set_block_status-lowered e = ground arith

  pub set_block_status-same : (a : Bool) → is_block_free fb k ≡ not a → set_block_status fb k a ≡ fb
  unfolding set_block_status
  set_block_status-same true e = ground arith
  set_block_status-same false e = ground arith

  is_block_free-raised : (j : ℕ) → is_block_free raised j ≡ update (is_block_free fb) k false j
  unfolding raised
  is_block_free-raised j =
      ground (arith, is_block_free-bit_at raised j, is_block_free-bit_at fb j, bit_at-raise j)

  is_block_free-lowered : (j : ℕ) → is_block_free lowered j ≡ update (is_block_free fb) k true j
  unfolding lowered
  is_block_free-lowered j =
      ground (arith, is_block_free-bit_at lowered j, is_block_free-bit_at fb j, bit_at-lower j)

  raised-IsValid : is_block_free fb k ≡ true → IsValid raised
  unfolding raised old
  raised-IsValid e = record {
    bytes =
        All-set (λ x. x < 256) fb.bitmap (k / 8) _ v.bytes
          (raise_bit-lt old (k % 8) (byte_bound fb k v) (omega arith));
    covers = length-set fb.bitmap (k / 8) _ ∙ v.covers;
    fits = v.fits;
    counted = ground (
      arith,
      v.counted,
      tally-ext _ _ fb.total_blocks (λ j h. is_block_free-raised j),
      tally-update (is_block_free fb) k fb.total_blocks false hk,
    );
  }

  lowered-IsValid : is_block_free fb k ≡ false → IsValid lowered
  unfolding lowered old
  lowered-IsValid e = record {
    bytes =
        All-set (λ x. x < 256) fb.bitmap (k / 8) _ v.bytes
          (lower_bit-lt old (k % 8) (byte_bound fb k v) (omega arith));
    covers = length-set fb.bitmap (k / 8) _ ∙ v.covers;
    fits = v.fits;
    counted = ground (
      arith,
      v.counted,
      v.fits,
      tally-ext _ _ fb.total_blocks (λ j h. is_block_free-lowered j),
      tally-update (is_block_free fb) k fb.total_blocks true hk,
      tally-le (is_block_free lowered) fb.total_blocks,
    );
  }

pub set_block_status_outside :
    (fb : FreeBitmap) (k : ℕ) (a : Bool) → fb.total_blocks ≤ k → set_block_status fb k a ≡ fb
unfolding set_block_status
set_block_status_outside fb k a h = ground arith

-- The three ways in which a valid table takes a new status, in one rule.
status_cases {ℓ} :
    (P : FreeBitmap → Type ℓ) (fb : FreeBitmap) (k : ℕ) (a : Bool)
    → (fb.total_blocks ≤ k → P fb)
    → ((h : k < fb.total_blocks) → is_block_free fb k ≡ not a → P fb)
    → ((v : IsValid fb) (h : k < fb.total_blocks)
        → is_block_free fb k ≡ true
        → a ≡ true
        → P (raised fb k v h))
    → ((v : IsValid fb) (h : k < fb.total_blocks)
        → is_block_free fb k ≡ false
        → a ≡ false
        → P (lowered fb k v h))
    → IsValid fb
    → P (set_block_status fb k a)
status_cases P fb k a outside same up down v = elim (Bool-cases (ltb k fb.total_blocks)) [
  | inr e ↦
      let h : fb.total_blocks ≤ k = ground arith in
      rw (set_block_status_outside fb k a h) (outside h)
  | inl e ↦ inside a (ltb→lt _ _ e) up down same
]
  where
    inside :
        (b : Bool) (h : k < fb.total_blocks)
        → ((w : IsValid fb) (h' : k < fb.total_blocks)
            → is_block_free fb k ≡ true
            → b ≡ true
            → P (raised fb k w h'))
        → ((w : IsValid fb) (h' : k < fb.total_blocks)
            → is_block_free fb k ≡ false
            → b ≡ false
            → P (lowered fb k w h'))
        → ((h' : k < fb.total_blocks) → is_block_free fb k ≡ not b → P fb)
        → P (set_block_status fb k b)
    inside true h u d s = elim (Bool-cases (is_block_free fb k)) [
      | inl e ↦ rw (set_block_status-raised fb k v h e) (u v h e refl)
      | inr e ↦ rw (set_block_status-same fb k v h true e) (s h e)
    ]
    inside false h u d s = elim (Bool-cases (is_block_free fb k)) [
      | inl e ↦ rw (set_block_status-same fb k v h false e) (s h e)
      | inr e ↦ rw (set_block_status-lowered fb k v h e) (d v h e refl)
    ]

-- Changing one block's status keeps the table well formed: the bytes stay bytes, and the counter
-- goes on counting the free blocks.
pub set_block_status-IsValid :
    (fb : FreeBitmap) (k : ℕ) (a : Bool) → IsValid fb → IsValid (set_block_status fb k a)
set_block_status-IsValid fb k a v =
    status_cases IsValid fb k a (λ h. v) (λ h e. v) (λ w h e t. raised-IsValid fb k w h e)
      (λ w h e t. lowered-IsValid fb k w h e) v

pub total_blocks-set_block_status :
    (fb : FreeBitmap) (k : ℕ) (a : Bool) → (set_block_status fb k a).total_blocks ≡ fb.total_blocks
unfolding set_block_status
total_blocks-set_block_status fb k a = ground arith

-- In a well-formed table, a new status for block `k` is what is then read for `k`, if `k` is a
-- block of the disk, and every other block reads as before.
pub is_block_free-set_block_status :
    (fb : FreeBitmap) (k : ℕ) (a : Bool) (j : ℕ)
    → IsValid fb
    → is_block_free (set_block_status fb k a) j
      ≡ (if j == k && ltb k fb.total_blocks then not a else is_block_free fb j)
is_block_free-set_block_status fb k a j v =
    status_cases
      (λ (r : FreeBitmap).
        is_block_free r j ≡ (if j == k && ltb k fb.total_blocks then not a else is_block_free fb j))
      fb k a (λ h. ground arith) (λ h e. ground arith)
      (λ w h e t. ground (arith, is_block_free-raised fb k w h j))
      (λ w h e t. ground (arith, is_block_free-lowered fb k w h j)) v

pub free_blocks-set_allocated :
    (fb : FreeBitmap) (k : ℕ)
    → IsValid fb
    → is_block_free fb k ≡ true
    → (set_block_status fb k true).free_blocks + 1 ≡ fb.free_blocks
unfolding set_block_status
free_blocks-set_allocated fb k v e =
    ground (arith, free_positive fb k v (free_in_range fb k e) e, free_in_range fb k e)
