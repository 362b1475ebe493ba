-- ===== src/Workload.antt =====
-- src/workload.hpp: the command streams of the benchmarks.
pub mod OneLevel
use Prim.Native.Nat.{bit_and}
use lowlat_matching_engine.Common.{
  ℕ, zero, suc, ◌+◌, ◌%◌, ◌==◌, if◌then◌else◌, List, [], ◌∷◌, ◌++◌, mul64, add64, sub64,
}
use lowlat_matching_engine.Types.{Side, buy, sell, OrderCommand, add_limit}

-- `for (i = from; i < n; ++i) commands.push_back(command i)`, with the rounds that are left.
unfoldable pub generate : (ℕ → OrderCommand) → ℕ → ℕ → List OrderCommand
generate command zero i = []
generate command (suc rounds) i = command i ∷ generate command rounds (i + 1)

abbrev pub base_bid : ℕ
base_bid = 10000

abbrev pub base_ask : ℕ
base_ask = 10001

-- `constexpr Price levels`
abbrev pub level_range : ℕ
level_range = 1024

abbrev pub offset : ℕ → ℕ
offset i = mul64 i 37 % level_range

abbrev pub limit_order : ℕ → Side → ℕ → ℕ → OrderCommand
limit_order order_id side price i = record {
  order_id = order_id;
  price = price;
  qty = i % 100 + 1;
  type = add_limit;
  side = side;
}

unfoldable pub add_only_command : ℕ → OrderCommand
add_only_command i =
    if bit_and i 1 == 0
    then limit_order (add64 i 1) sell (add64 base_ask (offset i)) i
    else limit_order (add64 i 1) buy (sub64 base_bid (offset i)) i

unfoldable pub make_add_only_commands : ℕ → List OrderCommand
unfolding generate add_only_command
make_add_only_commands n = generate add_only_command n 0

unfoldable pub make_resting_asks_commands : ℕ → List OrderCommand
unfolding generate
make_resting_asks_commands n =
    generate (λ i. limit_order (add64 i 1) sell (add64 base_ask (offset i)) i) n 0

unfoldable pub make_non_crossing_buys_commands : ℕ → List OrderCommand
unfolding generate
make_non_crossing_buys_commands n =
    generate (λ i. limit_order (add64 i 1) buy (sub64 base_bid (offset i)) i) n 0

unfoldable pub make_full_match_commands : ℕ → List OrderCommand
unfolding generate
make_full_match_commands n =
    generate (λ i. limit_order (add64 i 1) sell 10000 i) n 0
    ++ generate (λ i. limit_order (add64 (add64 n i) 1) buy 10000 i) n 0
