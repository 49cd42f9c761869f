-- ===== src/Unaligned/Tests.antt =====
-- Unaligned loads and stores of one word.
use anycore_pisa.Base.{◌+◌, ◌*◌, ◌/◌, ◌%◌, ◌^◌, ◌≡◌, refl, arith}
use anycore_pisa.Unaligned.{lwl_macro, lwr_macro, swl_macro, swr_macro}
use anycore_pisa.Unaligned.Pairs.{word_at, lwl_macro-lwr_macro, swl_macro-swr_macro}

-- The bytes at the addresses 0x1001 to 0x1004.
load_test : lwl_macro 0x1004 0x88776655 (lwr_macro 0x1001 0x44332211 0) ≡ 0x55443322
unfolding lwl_macro lwr_macro
load_test = refl

lwl_macro-lwr_macro_example :
    lwl_macro (0x1001 + 3) 0x88776655 (lwr_macro 0x1001 0x44332211 7)
    ≡ word_at (0x1001 % 4) 0x44332211 0x88776655
lwl_macro-lwr_macro_example =
    lwl_macro-lwr_macro 0x1001 0x44332211 0x88776655 7 (omega arith) (omega arith) (omega arith)
      (λ h. absurd (omega arith))

swl_macro-swr_macro_example :
    (word_at
        (0x1003 % 4)
        (swr_macro 0x1003 0xdeadbeef 0x44332211)
        (swl_macro (0x1003 + 3) 0xdeadbeef 0x88776655)
      ≡ 0xdeadbeef)
    × (swr_macro 0x1003 0xdeadbeef 0x44332211 % 2 ^ (8 * (0x1003 % 4))
        ≡ 0x44332211 % 2 ^ (8 * (0x1003 % 4)))
    × (swl_macro (0x1003 + 3) 0xdeadbeef 0x88776655 / 2 ^ (8 * (0x1003 % 4))
        ≡ 0x88776655 / 2 ^ (8 * (0x1003 % 4)))
swl_macro-swr_macro_example =
    swl_macro-swr_macro 0x1003 0xdeadbeef 0x44332211 0x88776655 (omega arith) (omega arith)
      (omega arith) (omega arith)
