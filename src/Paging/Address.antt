-- ===== src/Paging/Address.antt =====
-- The split of a virtual address in proj03/src/paging.c by masks and shifts.
pub mod Masks
use Prim.Native.Nat.{bit_and}
use cs.Prelude.{
  ℕ, zero, suc, ◌+◌, ◌-◌, ◌*◌, ◌/◌, ◌%◌, ◌^◌, ◌≤◌, ◌<◌, ◌≡◌, ◌∙◌, refl, sym, ap, min, arith,
}
use cs.Prelude.Int.{ℤ, pos, negsuc}

-- An `int` as the unsigned number with the same 32 bits.
unfoldable pub to_u32 : ℤ → ℕ
to_u32 (pos n) = n % 4294967296
to_u32 (negsuc n) = 4294967295 - n % 4294967296

-- `struct logical_address`
pub record LogicalAddress : Type 0 where
  pub outer_index : ℕ
  pub inner_index : ℕ
  pub page_offset : ℕ

abbrev pub outer_index_mask : ℕ
outer_index_mask = 0xffc00000

abbrev pub inner_index_mask : ℕ
inner_index_mask = 0x003ff000

abbrev pub page_offset_mask : ℕ
page_offset_mask = 0x00000fff

pub get_logical_address : ℤ → LogicalAddress
unfolding to_u32
get_logical_address virt_addr = record {
  outer_index = bit_and (to_u32 virt_addr) outer_index_mask / 2 ^ 22;
  inner_index = bit_and (to_u32 virt_addr) inner_index_mask / 2 ^ 12;
  page_offset = bit_and (to_u32 virt_addr) page_offset_mask;
}

pub get_physical_address : ℕ → ℕ → ℕ
get_physical_address frame_index frame_offset = frame_index * 2 ^ 12 + frame_offset
