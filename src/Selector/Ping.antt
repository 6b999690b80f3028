-- ===== src/Selector/Ping.antt =====
-- CalculateWeight of selector/selector_ping.go.
use frpc.Base.{ℕ, ◌-◌, ◌≤◌, ◌&&◌, arith, ltb, leb, if◌then◌else◌}
use frpc.Base.Int.{ℤ, pos, negsuc}

unfoldable pub calculate_weight : ℤ → ℕ
calculate_weight (negsuc n) = 0
calculate_weight (pos rtt) =
    if leb 0 rtt && leb rtt 10
    then 191
    else if ltb 10 rtt && leb rtt 200
    then 201 - rtt
    else if ltb 100 rtt && ltb rtt 1000
    then 1
    else 0

-- A server with a longer ping time never weighs more than one with a shorter time. Condition: the
-- times are not negative.
calculate_weight_antitone :
    (rtt slower : ℕ) → rtt ≤ slower → calculate_weight (pos slower) ≤ calculate_weight (pos rtt)
unfolding calculate_weight
calculate_weight_antitone rtt slower h = ground (arith, h)
