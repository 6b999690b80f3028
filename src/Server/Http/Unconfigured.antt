-- ===== src/Server/Http/Unconfigured.antt =====
-- What a server of NewServer starts on without the options that its network needs: server/option.go
-- with server/listener_quic.go and server/listener_kcp.go.
use frpc.Base.{◌≡◌, ◌∙◌, refl, false, List, [], ◌∷◌}
use frpc.Base.Bytes.{Bytes, text, eq}
use frpc.Server.Option.{Options, Setter, apply, apply_all, new_server}
use frpc.Server.Http.{
  Listeners, no_listener, serve_on, make_listener, make_quic_listener, make_kcp_listener,
}

-- The setters give no TLS configuration, under either name.
abbrev pub Plain : List Setter → Type 0
Plain [] = Unit {0}
Plain (Setter.tls_config given ∷ ss) = ⊥
Plain (Setter.with_tls_config given ∷ ss) = ⊥
Plain (s ∷ ss) = Plain ss

-- The setters give no BlockCrypt.
abbrev pub Uncrypted : List Setter → Type 0
Uncrypted [] = Unit {0}
Uncrypted (Setter.with_block_crypt given ∷ ss) = ⊥
Uncrypted (s ∷ ss) = Uncrypted ss

apply_all-tls_config :
    (ss : List Setter) (o : Options) → Plain ss → (apply_all ss o).tls_config ≡ o.tls_config
unfolding apply_all apply
apply_all-tls_config [] o h = refl
apply_all-tls_config (Setter.tls_config t ∷ ss) o h = elim h [ ]
apply_all-tls_config (Setter.with_tls_config t ∷ ss) o h = elim h [ ]
apply_all-tls_config (Setter.with_block_crypt t ∷ ss) o h = apply_all-tls_config ss _ h
apply_all-tls_config (Setter.read_timeout t ∷ ss) o h = apply_all-tls_config ss _ h
apply_all-tls_config (Setter.write_timeout t ∷ ss) o h = apply_all-tls_config ss _ h
apply_all-tls_config (Setter.rpc_path t ∷ ss) o h = apply_all-tls_config ss _ h

apply_all-block_crypt :
    (ss : List Setter) (o : Options) → Uncrypted ss → (apply_all ss o).block_crypt ≡ o.block_crypt
unfolding apply_all apply
apply_all-block_crypt [] o h = refl
apply_all-block_crypt (Setter.with_block_crypt t ∷ ss) o h = elim h [ ]
apply_all-block_crypt (Setter.tls_config t ∷ ss) o h = apply_all-block_crypt ss _ h
apply_all-block_crypt (Setter.with_tls_config t ∷ ss) o h = apply_all-block_crypt ss _ h
apply_all-block_crypt (Setter.read_timeout t ∷ ss) o h = apply_all-block_crypt ss _ h
apply_all-block_crypt (Setter.write_timeout t ∷ ss) o h = apply_all-block_crypt ss _ h
apply_all-block_crypt (Setter.rpc_path t ∷ ss) o h = apply_all-block_crypt ss _ h

-- Without a TLS configuration a server of NewServer does not start over quic, whatever else is set.
pub serve_on-quic :
    (ls : Listeners) (ss : List Setter) (address : Bytes)
    → Plain ss
    → serve_on ls (apply_all ss new_server) (text "quic") address
      ≡ no_listener (text "TLSConfig must be configured in server.Options")
unfolding serve_on make_listener make_quic_listener eq
serve_on-quic ls ss address h =
    rw (apply_all-tls_config ss new_server h ∙ none_given, serve_on) refl
  where
    none_given : new_server.tls_config ≡ false
    none_given = unfold new_server in refl

-- Without a BlockCrypt a server of NewServer does not start over kcp, whatever else is set.
pub serve_on-kcp :
    (ls : Listeners) (ss : List Setter) (address : Bytes)
    → Uncrypted ss
    → serve_on ls (apply_all ss new_server) (text "kcp") address
      ≡ no_listener (text "KCP BlockCrypt must be configured in server.Options")
unfolding serve_on make_listener make_kcp_listener eq
serve_on-kcp ls ss address h =
    rw (apply_all-block_crypt ss new_server h ∙ none_given, serve_on) refl
  where
    none_given : new_server.block_crypt ≡ false
    none_given = unfold new_server in refl
