-- ===== src/Client/Call/Trace/Settled.antt =====
-- What a connection of client/client.go inherits from the board of its calls.
use frpc.Base.{ℕ, ◌≡◌, true, some, get_elem?}
use frpc.Client.Call.{Client}
use frpc.Client.Call.Trace.Board.{Board}

-- What the board alone tells: a settled call stays settled.
Settled : ℕ → Board → Type 0
Settled i b = get_elem? b i ≡ some true
