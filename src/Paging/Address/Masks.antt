-- ===== src/Paging/Address/Masks.antt =====
-- Masks and shifts as arithmetic, for the address split of proj03/src/paging.c.
use Prim.Native.Nat.{bit_and, bit_and-bitwise, digits}
use native.Mathlib.Nat.{pow-suc, div-div-eq-div-mul, mul-div_cancel, mul_comm}
use cs.Prelude.{
  ℕ, zero, suc, ◌+◌, ◌*◌, ◌/◌, ◌%◌, ◌^◌, ◌≤◌, ◌<◌, ◌≡◌, ◌∙◌, refl, sym, ap, min, arith,
}
use cs.Prelude.Int.{ℤ, pos, negsuc}
use cs.Paging.Address.{
  to_u32, outer_index_mask, inner_index_mask, page_offset_mask, get_logical_address,
  get_physical_address,
}

-- The conjunction of the lowest `fuel` digits does not depend on fuel that is enough.
abbrev conjunction : ℕ → ℕ → ℕ → ℕ
conjunction fuel = digits (λ b. zero) min fuel

enough_fuel : (f g a b : ℕ) → a ≤ f → a ≤ g → conjunction f a b ≡ conjunction g a b
enough_fuel zero zero zero b p q = refl
enough_fuel zero (suc g) zero b p q = refl
enough_fuel (suc f) zero zero b p q = refl
enough_fuel (suc f) (suc g) zero b p q = refl
enough_fuel zero g (suc a) b p q = absurd (omega arith)
enough_fuel (suc f) zero (suc a) b p q = absurd (omega arith)
enough_fuel (suc f) (suc g) (suc a) b p q =
    omega (arith, enough_fuel f g (suc a / 2) (b / 2) (omega arith) (omega arith))

bit_and_none : (b : ℕ) → bit_and 0 b ≡ 0
bit_and_none b = bit_and-bitwise 0 b

-- The lowest digits, and the rest.
bit_and_halves : (a b : ℕ) → bit_and a b ≡ 2 * bit_and (a / 2) (b / 2) + min (a % 2) (b % 2)
bit_and_halves zero b = omega (arith, bit_and_none b, bit_and_none (b / 2))
bit_and_halves (suc a) b = omega (
  arith,
  bit_and-bitwise (suc a) b,
  bit_and-bitwise (suc a / 2) (b / 2),
  enough_fuel a (suc a / 2) (suc a / 2) (b / 2) (omega arith) (omega arith),
)

bit_and_even : (a b : ℕ) → bit_and a (2 * b) ≡ 2 * bit_and (a / 2) b
bit_and_even a b =
    let half : 2 * b / 2 ≡ b = omega arith in
    omega (arith, bit_and_halves a (2 * b), ap (bit_and (a / 2)) half)

bit_and_odd : (a b : ℕ) → bit_and a (2 * b + 1) ≡ 2 * bit_and (a / 2) b + a % 2
bit_and_odd a b =
    let half : (2 * b + 1) / 2 ≡ b = omega arith in
    omega (arith, bit_and_halves a (2 * b + 1), ap (bit_and (a / 2)) half)

-- `b << k`
shifted : ℕ → ℕ → ℕ
shifted zero b = b
shifted (suc k) b = 2 * shifted k b

-- `(1 << k) - 1`
ones : ℕ → ℕ
ones zero = 0
ones (suc k) = 2 * ones k + 1

half_pow : (k a : ℕ) → a / 2 / 2 ^ k ≡ a / 2 ^ suc k
half_pow k a =
    div-div-eq-div-mul a 2 (2 ^ k) ∙ ap (λ m. a / m) (mul_comm 2 (2 ^ k) ∙ sym (pow-suc 2 k))

div_one : (a : ℕ) → a / 2 ^ 0 ≡ a
div_one a = omega arith

bit_and-shifted : (k a b : ℕ) → bit_and a (shifted k b) ≡ bit_and (a / 2 ^ k) b * 2 ^ k
unfolding shifted
bit_and-shifted zero a b = omega (arith, ap (λ x. bit_and x b) (div_one a))
bit_and-shifted (suc k) a b = omega (
  arith,
  bit_and_even a (shifted k b),
  bit_and-shifted k (a / 2) b,
  ap (λ x. bit_and x b * 2 ^ k) (half_pow k a),
  ap (λ m. bit_and (a / 2 ^ suc k) b * m) (pow-suc 2 k),
)

bit_and-zero : (k a : ℕ) → a ≤ k → bit_and a 0 ≡ 0
bit_and-zero k zero h = refl
bit_and-zero zero (suc a) h = absurd (omega arith)
bit_and-zero (suc k) (suc a) h =
    omega (arith, bit_and_even (suc a) 0, bit_and-zero k (suc a / 2) (omega arith))

bit_and-ones : (k a : ℕ) → bit_and a (ones k) + 2 ^ k * (a / 2 ^ k) ≡ a
unfolding ones
bit_and-ones zero a = omega (arith, bit_and-zero a a (omega arith))
bit_and-ones (suc k) a = omega (
  arith,
  bit_and_odd a (ones k),
  bit_and-ones k (a / 2),
  ap (λ x. 2 ^ k * x) (half_pow k a),
  ap (λ m. m * (a / 2 ^ suc k)) (pow-suc 2 k),
)

-- The masks of the program.
masks :
    (shifted 22 (ones 10) ≡ outer_index_mask)
    × (shifted 12 (ones 10) ≡ inner_index_mask)
    × (ones 12 ≡ page_offset_mask)
unfolding shifted ones
masks = (refl, refl, refl)

to_u32-lt : (a : ℤ) → to_u32 a < 4294967296
unfolding to_u32
to_u32-lt (pos n) = omega arith
to_u32-lt (negsuc n) = omega arith

masked_shifted : (k a b : ℕ) → 0 < 2 ^ k → bit_and a (shifted k b) / 2 ^ k ≡ bit_and (a / 2 ^ k) b
masked_shifted k a b pos_pow =
    ap (λ x. x / 2 ^ k) (bit_and-shifted k a b) ∙ mul-div_cancel (bit_and (a / 2 ^ k) b) pos_pow

outer_part : (n : ℕ) → bit_and n outer_index_mask / 2 ^ 22 ≡ n / 4194304 % 1024
outer_part n =
    ap (λ m. bit_and n m / 2 ^ 22) (sym masks.0)
    ∙ masked_shifted 22 n (ones 10) (omega arith)
    ∙ omega (arith, bit_and-ones 10 (n / 4194304))

inner_part : (n : ℕ) → bit_and n inner_index_mask / 2 ^ 12 ≡ n / 4096 % 1024
inner_part n =
    ap (λ m. bit_and n m / 2 ^ 12) (sym masks.1)
    ∙ masked_shifted 12 n (ones 10) (omega arith)
    ∙ omega (arith, bit_and-ones 10 (n / 4096))

offset_part : (n : ℕ) → bit_and n page_offset_mask ≡ n % 4096
offset_part n = ap (bit_and n) (sym masks.2) ∙ omega (arith, bit_and-ones 12 n)

-- The indices lie in tables of 1024 entries and the offset in a page of 4096 bytes, and together they
-- make up the 32 bits of the address.
pub get_logical_address_lem :
    (address : ℤ)
    → let logical = get_logical_address address in
      (logical.outer_index < 1024)
      × (logical.inner_index < 1024)
      × (logical.page_offset < 4096)
      × (logical.outer_index * 4194304 + logical.inner_index * 4096 + logical.page_offset
          ≡ to_u32 address)
unfolding get_logical_address
get_logical_address_lem address =
    let n = to_u32 address in
    let o = outer_part n in
    let i = inner_part n in let f = offset_part n in let lt = to_u32-lt address in omega arith

-- A physical address gives back its frame and its offset.
pub get_physical_address_lem :
    (frame offset : ℕ)
    → offset < 4096
    → (get_physical_address frame offset / 4096 ≡ frame)
      × (get_physical_address frame offset % 4096 ≡ offset)
unfolding get_physical_address
get_physical_address_lem frame offset lt = omega arith

-- The physical address of a virtual one lies in its frame at the last 12 bits of the address.
pub get_physical_address-page_offset :
    (address : ℤ) (frame : ℕ)
    → get_physical_address frame (get_logical_address address).page_offset
      ≡ frame * 4096 + to_u32 address % 4096
unfolding get_physical_address
get_physical_address-page_offset address frame = omega (arith, get_logical_address_lem address)
