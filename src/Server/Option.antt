-- ===== src/Server/Option.antt =====
-- The options of server/option.go with their setters, which are also in server/listener_kcp.go and
-- server/listener_quic.go, and those of newServer. A duration is a number of nanoseconds; of the
-- BlockCrypt in `configs` and of the TLS configuration there is only whether they are set.
use frpc.Base.{ℕ, Bool, false, List, [], ◌∷◌}
use frpc.Base.Bytes.{Bytes}

pub record Options : Type 0 where
  pub read_timeout : ℕ
  pub write_timeout : ℕ
  pub block_crypt : Bool
  pub tls_config : Bool
  pub rpc_path : Bytes

-- The methods by which a user sets the options. TLSConfig and WithTlsConfig are the same.
pub data Setter : Type 0 where
  read_timeout write_timeout : ℕ → Setter
  tls_config with_tls_config with_block_crypt : Bool → Setter
  rpc_path : Bytes → Setter

unfoldable pub apply : Setter → Options → Options
apply (Setter.read_timeout t) o = record o { read_timeout = t }
apply (Setter.write_timeout t) o = record o { write_timeout = t }
apply (Setter.tls_config given) o = record o { tls_config = given }
apply (Setter.with_tls_config given) o = record o { tls_config = given }
apply (Setter.with_block_crypt given) o = record o { block_crypt = given }
apply (Setter.rpc_path path) o = record o { rpc_path = path }

unfoldable pub apply_all : List Setter → Options → Options
unfolding apply
apply_all [] o = o
apply_all (s ∷ ss) o = apply_all ss (apply s o)

-- The options of newServer.
unfoldable pub new_server : Options
new_server = record {
  read_timeout = 0;
  write_timeout = 0;
  block_crypt = false;
  tls_config = false;
  rpc_path = [];
}
