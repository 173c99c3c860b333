-- ===== src/Bitwise/Tests.antt =====
-- bitmex_mm/BitwiseOperations.hpp: the three functions of -5.
use bitmex_market_maker.Base.{◌≡◌, arith}
use bitmex_market_maker.Bitwise.{bitwise_non_zero, bitwise_positive_only, bitwise_negative_abs}
use bitmex_market_maker.Bitwise.Masks.{bitwise_lem}

bitwise_lem_example :
    (bitwise_non_zero 4294967291 ≡ 1)
    × (bitwise_positive_only 4294967291 ≡ 0)
    × (bitwise_negative_abs 4294967291 ≡ 5)
bitwise_lem_example = bitwise_lem 4294967291 (omega arith) (λ e. omega (arith, e))
