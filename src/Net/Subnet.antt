-- ===== src/Net/Subnet.antt =====
-- src/services/utils.rs: `mask_to_prefix_len` and `prefix_len_to_mask`, with the u32 operations
-- `leading_ones`, `trailing_zeros` and `<<` of the standard library.
use trimrouter.Prelude.{
  ℕ, zero, suc, ◌+◌, ◌-◌, ◌*◌, ◌/◌, ◌%◌, ◌^◌, ◌≤◌, ◌≡◌, Bool, true, false, ◌&&◌, ◌||◌, Option,
  subst, Bool-cases, inl, inr, refl, none, some, arith, nat_eq, ltb, if◌then◌else◌,
}

-- Bit `i` of a word.
abbrev bit : ℕ → ℕ → ℕ
bit w i = w / 2 ^ i % 2

-- The ones from bit `n - 1` of a word of `n` bits downwards.
unfoldable pub leading_ones : ℕ → ℕ → ℕ
leading_ones zero w = 0
leading_ones (suc n) w = let rest = leading_ones n w in if nat_eq (bit w n) 1 then suc rest else 0

-- The zeros from bit 0 of a word of `n` bits upwards.
unfoldable pub trailing_zeros : ℕ → ℕ → ℕ
trailing_zeros zero w = 0
trailing_zeros (suc n) w =
    let rest = trailing_zeros n (w / 2) in if nat_eq (w % 2) 0 then suc rest else 0

-- `none` is the error for a mask that is not contiguous.
unfoldable pub mask_to_prefix_len : ℕ → Option ℕ
unfolding leading_ones trailing_zeros
mask_to_prefix_len mask =
    if nat_eq (leading_ones 32 mask + trailing_zeros 32 mask) 32
    then some (leading_ones 32 mask)
    else none

-- `u32::MAX << (32 - prefix_len)`: the bits shifted out are lost.
unfoldable pub prefix_len_to_mask : ℕ → ℕ
prefix_len_to_mask prefix_len =
    if nat_eq prefix_len 0 || ltb 32 prefix_len
    then 0
    else 4294967295 * 2 ^ (32 - prefix_len) % 4294967296

-- A test that holds of all numbers up to a bound.
abbrev all_upto : (ℕ → Bool) → ℕ → Bool
all_upto p zero = p 0
all_upto p (suc n) = p (suc n) && all_upto p n

all_upto-le : (p : ℕ → Bool) (n k : ℕ) → all_upto p n ≡ true → k ≤ n → p k ≡ true
all_upto-le p zero k h le = subst (λ i. p i ≡ true) (omega (arith, le)) h
all_upto-le p (suc n) k h le = elim (Bool-cases (nat_eq k (suc n))) [
  | inl same ↦
      let here : p (suc n) ≡ true = ground (arith, h) in
      subst (λ i. p i ≡ true) (ground (arith, same)) here
  | inr below ↦ all_upto-le p n k (ground (arith, h)) (ground (arith, below, le))
]

abbrev is_prefix : Option ℕ → ℕ → Bool
is_prefix none p = false
is_prefix (some n) p = nat_eq n p

is_prefix-some : (o : Option ℕ) (p : ℕ) → is_prefix o p ≡ true → o ≡ some p
is_prefix-some none p h = cc
is_prefix-some (some n) p h = ground arith

table : all_upto (λ p. is_prefix (mask_to_prefix_len (prefix_len_to_mask p)) p) 32 ≡ true
unfolding mask_to_prefix_len prefix_len_to_mask
table = refl

-- The mask of a prefix length of up to 32 bits is contiguous, and is read back as that length.
pub mask_to_prefix_len-prefix_len_to_mask :
    (p : ℕ) → p ≤ 32 → mask_to_prefix_len (prefix_len_to_mask p) ≡ some p
mask_to_prefix_len-prefix_len_to_mask p h =
    is_prefix-some _ p
      (all_upto-le (λ p. is_prefix (mask_to_prefix_len (prefix_len_to_mask p)) p) 32 p table h)
