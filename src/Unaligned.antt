-- ===== src/Unaligned.antt =====
-- simulation/functional-sim/include/I_hate_these_instructions.h, with the WL_ and WR_ macros of ss.h
-- and the masks of libss-vpi/lib.src/ss.cc: what LWL, LWR, SWL and SWR make of the word that they
-- load or replace, on a little-endian host.
pub mod Lanes
pub mod Pairs
mod Tests
use anycore_pisa.Base.{
  ℕ, zero, suc, ◌+◌, ◌-◌, ◌*◌, bit_and, bit_or, List, [], ◌∷◌, get_or, not32, ◌<<<◌, ◌>>>◌,
}

-- ss_lr_masks without BYTES_BIG_ENDIAN.
abbrev pub ss_lr_masks : List ℕ
ss_lr_masks = 0xffffffff ∷ 0x00ffffff ∷ 0x0000ffff ∷ 0x000000ff ∷ 0x00000000 ∷ []

abbrev pub wl_size : ℕ → ℕ
wl_size addr = 4 - bit_and addr 0x03

abbrev pub wr_size : ℕ → ℕ
wr_size addr = bit_and addr 0x03 + 1

abbrev pub wl_prot_mask1 : ℕ → ℕ
wl_prot_mask1 addr = get_or ss_lr_masks (wl_size addr) 0

abbrev pub wl_prot_mask2 : ℕ → ℕ
wl_prot_mask2 addr = get_or ss_lr_masks (4 - wl_size addr) 0

abbrev pub wr_prot_mask1 : ℕ → ℕ
wr_prot_mask1 addr = get_or ss_lr_masks (wr_size addr) 0

abbrev pub wr_prot_mask2 : ℕ → ℕ
wr_prot_mask2 addr = get_or ss_lr_masks (4 - wr_size addr) 0

abbrev pub wordalign : ℕ → ℕ
wordalign addr = bit_and addr (not32 0x03)

pub lwl_macro : ℕ → ℕ → ℕ → ℕ
lwl_macro addr load_data back_data =
    bit_or (bit_and back_data (wr_prot_mask1 addr))
      (bit_and (load_data <<< (8 * (wl_size addr - 1))) (not32 (wr_prot_mask1 addr)))

pub lwr_macro : ℕ → ℕ → ℕ → ℕ
lwr_macro addr load_data back_data =
    bit_or (bit_and back_data (not32 (wl_prot_mask2 addr)))
      (bit_and (load_data >>> (8 * (wr_size addr - 1))) (wl_prot_mask2 addr))

pub swl_macro : ℕ → ℕ → ℕ → ℕ
swl_macro addr store_data back_data =
    bit_or (bit_and (store_data >>> (8 * (4 - wr_size addr))) (wr_prot_mask2 addr))
      (bit_and back_data (not32 (wr_prot_mask2 addr)))

pub swr_macro : ℕ → ℕ → ℕ → ℕ
swr_macro addr store_data back_data =
    bit_or (bit_and (store_data <<< (8 * (4 - wl_size addr))) (not32 (wl_prot_mask1 addr)))
      (bit_and back_data (wl_prot_mask1 addr))
