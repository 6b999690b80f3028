-- ===== src/Server/Controllers.antt =====
-- The controllers of controller/metrics.go, controller/ratelimit.go and controller/trace.go, each as
-- a controller of the server over a state of its own.
pub mod Limit
use frpc.Base.{
  ℕ, ◌-◌, Bool, true, false, List, [], ◌∷◌, ◌++◌, Option, none, some, ltb, if◌then◌else◌,
}
use frpc.Base.Bytes.{Bytes, text, eq}
use frpc.Protocol.Message.{Message}
use frpc.Server.Controller.{Controller}

-- What is asked of the registry of go-metrics: a counter by one, a meter by one, a value for a
-- histogram.
pub data Update : Type 0 where
  increments : Bytes → Update
  marks : Bytes → Update
  records : Bytes → ℕ → Update

unfoldable pub with_prefix : Bytes → Bytes → Bytes
with_prefix prefix s = prefix ++ s

-- "service." + sp + "." + sm + what
unfoldable pub meter_name : Bytes → Message → Bytes → Bytes
unfolding with_prefix
meter_name prefix m what =
    with_prefix prefix (text "service." ++ m.service_path ++ text "." ++ m.service_method ++ what)

-- 30 * time.Minute in nanoseconds
abbrev pub half_hour : ℕ
half_hour = 1_800_000_000_000

-- Metric; `start` is the time in the context, and `now` that of the answer, which is not earlier. The
-- state lists the updates, the last one last.
unfoldable pub metric : Bytes → ℕ → ℕ → Controller (List Update)
unfolding meter_name with_prefix
metric prefix start now = record {
  register = λ name metadata s.
      (none, s ++ (increments (with_prefix prefix (text "serviceCounter")) ∷ []));
  handle_conn =
      λ conn s. ((conn, true), s ++ (marks (with_prefix prefix (text "clientMeter")) ∷ []));
  post_request = λ req e s.
      if eq req.service_path []
      then (none, s)
      else (none, s ++ (marks (meter_name prefix req (text ".Read_Qps")) ∷ []));
  post_response = λ req res e s.
      if eq res.service_path []
      then (none, s)
      else let marked = s ++ (marks (meter_name prefix res (text ".Write_Qps")) ∷ []) in
        if ltb 0 start
        then if ltb (now - start) half_hour
          then (
            none,
            marked ++ (records (meter_name prefix res (text ".CallTime")) (now - start) ∷ []),
          )
          else (none, marked)
        else (none, marked);
}

-- RateLimit; `take_available` is TakeAvailable of the bucket.
unfoldable pub rate_limit : {S : Type 0} → (ℕ → S → ℕ × S) → Controller S
rate_limit take_available = record {
  register = λ name metadata s. (none, s);
  handle_conn = λ conn s.
      let (i, s') = take_available 1 s in
      if ltb 0 i then ((conn, true), s') else ((conn, false), s');
  post_request = λ req e s. (none, s);
  post_response = λ req res e s. (none, s);
}

-- Trace: the titles of the traces, and whether SetError was called. What is printed into them is left
-- out.
unfoldable pub trace : Controller (List (Bytes × Bool))
trace = record {
  register = λ name metadata s. (none, s ++ ((text "Register", false) ∷ []));
  handle_conn = λ conn s. ((conn, true), s ++ ((text "AcceptConn", false) ∷ []));
  post_request = λ req e s. (none, s ++ ((text "ReadRequest", false) ∷ []));
  post_response = λ req res e s.
      (none, s ++ ((text "WriteResponse", elim e [ none ↦ false | some x ↦ true ]) ∷ []));
}
