-- ===== src/Circuit.antt =====
-- SimpleCircuitBreaker of circuit/breaker_simple.go. Times are nanoseconds since the zero time.
pub mod Trips
use frpc.Base.{
  ℕ, ◌+◌, ◌-◌, ◌%◌, ◌^◌, Bool, true, false, Option, none, some, ltb, ◌==◌, if◌then◌else◌,
}
use frpc.Base.Bytes.{Bytes}

pub record Breaker : Type 0 where
  pub last_failure_time : ℕ
  pub failures : ℕ
  pub failure_threshold : ℕ
  pub window : ℕ

unfoldable pub new_breaker : ℕ → ℕ → Breaker
new_breaker threshold window = record {
  last_failure_time = 0;
  failures = 0;
  failure_threshold = threshold;
  window = window;
}

-- What Call returns in place of nil.
pub data Error : Type 0 where
  breaker_open breaker_timeout : Error
  of_function : Bytes → Error

unfoldable pub reset : ℕ → Breaker → Breaker
reset now b = record b { failures = 0; last_failure_time = now }

unfoldable pub success : ℕ → Breaker → Breaker
unfolding reset
success now b = reset now b

unfoldable pub fail : ℕ → Breaker → Breaker
fail now b = record b { failures = (b.failures + 1) % 2 ^ 64; last_failure_time = now }

-- ready, with the breaker as it leaves it.
unfoldable pub ready : ℕ → Breaker → Bool × Breaker
unfolding reset
ready now b =
    if ltb b.window (now - b.last_failure_time)
    then (true, reset now b)
    else (ltb b.failures b.failure_threshold, b)

-- A call of the function: how long it takes, and its error.
pub record Work : Type 0 where
  pub takes : ℕ
  pub failure : Option Bytes

-- `err` behind the select; a function that takes just `d` is timed out.
unfoldable pub outcome : ℕ → Work → Option Error
outcome d w =
    if d == 0
    then elim w.failure [ none ↦ none | some e ↦ some (of_function e) ]
    else if ltb w.takes d
    then elim w.failure [ none ↦ none | some e ↦ some (of_function e) ]
    else some breaker_timeout

unfoldable pub settle : ℕ → Option Error → Breaker → Breaker
unfolding success fail reset
settle now none b = success now b
settle now (some e) b = fail now b

-- Call at the time `now`, with the result noted at the time `later`: the error, whether the function
-- was called, and the breaker.
unfoldable pub call : ℕ → ℕ → ℕ → Work → Breaker → Option Error × Bool × Breaker
unfolding ready outcome settle
call now later d w b =
    let (go, b') = ready now b in
    if go
    then (outcome d w, true, settle later (outcome d w) b')
    else (some breaker_open, false, b')
