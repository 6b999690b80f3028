-- ===== src/Client/Option.antt =====
-- The options of client/option.go and the Client that NewClient of client/client.go makes. A duration
-- is a number of nanoseconds; of the TLS configuration and the block there is only whether they are set,
-- the block to a kcp.BlockCrypt.
use frpc.Base.{ℕ, ◌*◌, ◌≡◌, refl, ◌∙◌, Bool, false, List, [], ◌∷◌}
use frpc.Base.Bytes.{Bytes}
use frpc.Protocol.Header.{msg_pack, uncompressed}
use frpc.Client.Failmode.{fail_fast_mode}

pub record Options : Type 0 where
  pub serialize_type : ℕ
  pub compress_type : ℕ
  pub read_timeout : ℕ
  pub write_timeout : ℕ
  pub conn_timeout : ℕ
  pub heartbeat : Bool
  pub heartbeat_interval : ℕ
  pub rpc_path : Bytes
  pub retries : ℕ
  pub fail_mode : ℕ
  pub tls_config : Bool
  pub block : Bool

-- The methods by which a user sets the options.
pub data Setter : Type 0 where
  serialize compress read_timeout write_timeout conn_timeout retries fail_mode : ℕ → Setter
  heartbeat : Bool → ℕ → Setter
  rpc_path : Bytes → Setter
  with_tls with_block : Bool → Setter

unfoldable pub apply : Setter → Options → Options
apply (Setter.serialize t) o = record o { serialize_type = t }
apply (Setter.compress t) o = record o { compress_type = t }
apply (Setter.read_timeout t) o = record o { read_timeout = t }
apply (Setter.write_timeout t) o = record o { write_timeout = t }
apply (Setter.conn_timeout t) o = record o { read_timeout = t }
apply (Setter.retries n) o = record o { retries = n }
apply (Setter.fail_mode m) o = record o { fail_mode = m }
apply (Setter.heartbeat on interval) o = record o { heartbeat = on; heartbeat_interval = interval }
apply (Setter.rpc_path path) o = record o { rpc_path = path }
apply (Setter.with_tls given) o = record o { tls_config = given }
apply (Setter.with_block given) o = record o { block = given }

unfoldable pub apply_all : List Setter → Options → Options
unfolding apply
apply_all [] o = o
apply_all (s ∷ ss) o = apply_all ss (apply s o)

abbrev second : ℕ
second = 1_000_000_000

abbrev zero_options : Options
zero_options = record {
  serialize_type = 0;
  compress_type = 0;
  read_timeout = 0;
  write_timeout = 0;
  conn_timeout = 0;
  heartbeat = false;
  heartbeat_interval = 0;
  rpc_path = [];
  retries = 0;
  fail_mode = 0;
  tls_config = false;
  block = false;
}

unfoldable pub new_client : Options
unfolding apply_all
new_client =
    apply_all
      (Setter.conn_timeout (10 * second)
        ∷ Setter.serialize msg_pack
        ∷ Setter.compress uncompressed
        ∷ Setter.retries 3
        ∷ Setter.fail_mode fail_fast_mode
        ∷ [])
      zero_options

apply_all-conn_timeout :
    (ss : List Setter) (o : Options) → (apply_all ss o).conn_timeout ≡ o.conn_timeout
unfolding apply_all
apply_all-conn_timeout [] o = refl
apply_all-conn_timeout (s ∷ ss) o = apply_all-conn_timeout ss (apply s o) ∙ one s
  where
    one : (t : Setter) → (apply t o).conn_timeout ≡ o.conn_timeout
    one (Setter.serialize x) = refl
    one (Setter.compress x) = refl
    one (Setter.read_timeout x) = refl
    one (Setter.write_timeout x) = refl
    one (Setter.conn_timeout x) = refl
    one (Setter.retries x) = refl
    one (Setter.fail_mode x) = refl
    one (Setter.heartbeat x y) = refl
    one (Setter.rpc_path x) = refl
    one (Setter.with_tls x) = refl
    one (Setter.with_block x) = refl

-- Whatever a user sets on a client of NewClient, ConnTimeout included, the timeout for dialling
-- stays 0.
new_client_dials_unlimited : (ss : List Setter) → (apply_all ss new_client).conn_timeout ≡ 0
unfolding new_client
new_client_dials_unlimited ss = apply_all-conn_timeout ss new_client
