-- ===== src/Slice/Examples.antt =====
-- Runs of the slice operations, and the theorems at concrete inputs.
use elysiumkv.Base.{◌≡◌, refl, true, [], ◌∷◌, arith}
use elysiumkv.Slice.{
  Bytes, three_way, shorter, sign_of_common, then_sizes, memcmp, key_lt, starts_with,
  upper_bound_loop, prefix_upper_bound,
}
use elysiumkv.Slice.Order.{lex, three_way-lex}
use elysiumkv.Slice.Prefix.{starts_with-in_bounds, in_bounds}

abbrev low : Bytes
low = 1 ∷ 0xff ∷ []

abbrev high : Bytes
high = 1 ∷ 0xff ∷ 7 ∷ []

low_below_high : key_lt low high ≡ true
unfolding key_lt three_way shorter sign_of_common then_sizes memcmp
low_below_high = refl

bound_of_low : prefix_upper_bound low ≡ (true, 2 ∷ [])
unfolding prefix_upper_bound upper_bound_loop
bound_of_low = refl

three_way-lex_example : three_way low high ≡ lex low high
three_way-lex_example = three_way-lex low high

starts_with-in_bounds_example : starts_with high low ≡ in_bounds low (prefix_upper_bound low) high
starts_with-in_bounds_example = starts_with-in_bounds low high (omega arith) (omega arith)
