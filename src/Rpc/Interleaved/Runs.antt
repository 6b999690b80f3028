-- ===== src/Rpc/Interleaved/Runs.antt =====
-- Any history of calls under way on one connection of client/client.go and server/server.go.
use frpc.Base.{
  ℕ, ◌≡◌, refl, sym, ap, subst, false, List, [], ◌∷◌, ◌++◌, append-nil, append_assoc, some, arith,
  length, get_elem?,
}
use frpc.Base.Members.{get_elem?-append, get_elem?-new}
use frpc.Protocol.Message.{Message, new_message}
use frpc.Client.Call.{Codec, Env, Call, Client}
use frpc.Client.Call.Trace.Heap.{IsSignalled, answer_call-Wakes}
use frpc.Server.Handle.{Server}
use frpc.Rpc.Interleaved.{Connection, Event, calls, reads, finishes, receives, run, made}
use frpc.Rpc.Interleaved.State.{settled, IsGood, AllGood, Progress, Inv}
use frpc.Rpc.Interleaved.Sends.{calls-Inv, reads-Inv}
use frpc.Rpc.Interleaved.Answers.{finishes-Inv}
use frpc.Rpc.Interleaved.Receives.{receives-Inv}

-- A new client, on a connection on which nothing has happened.
pub record IsNew {V : Type 0} (c : Client V) : Type 0 where
  pub up : c.shutdown ≡ false
  pub open_ : c.closing ≡ false
  pub number : c.seq ≡ 0
  pub no_calls : c.calls ≡ []
  pub no_writes : c.sent ≡ []

abbrev pub opened : {V W : Type 0} → Client V → Server W → Connection V W
opened c s = record {
  client = c;
  loop = new_message;
  read = 0;
  running = [];
  server = s;
  written = [];
}

module _ {V W : Type 0} (env : Env V) (codec : Codec V) (c : Client V) (s : Server W) (m : Message)
    (req : ℕ → Message) where
  abbrev Keeps : Connection V W → List (Call V) → Type 0
  Keeps = Inv env codec c s m req

  pub opened-Inv : IsNew c → Keeps (opened c s) []
  opened-Inv h = record {
    up = h.up;
    open_ = h.open_;
    serialize = refl;
    compress = refl;
    number = h.number;
    heap = ap length h.no_calls;
    writes = ap length h.no_writes;
    behind = omega arith;
    wire = λ n call e. cc;
    loop = unfold new_message in refl;
    alike = record { codecs = refl; methods = λ p q. refl };
    asked = λ q k. elim k [ ];
    replied = λ b k. elim k [ ];
    each = λ n call e. cc;
  }

  module _ (has : env.codecs c.serialize_type ≡ some codec) where
    pub run-Inv :
        (es : List (Event V)) (x : Connection V W) (before : List (Call V))
        → Keeps x before
        → AllGood env codec c s m req (before ++ made es)
        → Keeps (run env m x es) (before ++ made es)
    unfolding run made
    run-Inv [] x before i good = subst (Keeps x) (sym (append-nil before)) i
    run-Inv (calls call ∷ es) x before i good =
        subst (Keeps (run env m x (calls call ∷ es))) regroup (
          run-Inv es _ (before ++ (call ∷ []))
            (calls-Inv env codec c s m req x before i call has (
              good (length before) call (
                subst (λ k. get_elem? k (length before) ≡ some call) regroup
                  (get_elem?-append (before ++ (call ∷ [])) (made es) (length before) call
                    (get_elem?-new before call)))))
            (subst (AllGood env codec c s m req) (sym regroup) good))
      where
        regroup : (before ++ (call ∷ [])) ++ made es ≡ before ++ (call ∷ made es)
        regroup = append_assoc before (call ∷ []) (made es)
    run-Inv (reads ∷ es) x before i good =
        run-Inv es _ before
          (reads-Inv env codec c s m req x before i
            (λ n call e. good n call (get_elem?-append before (made es) n call e)))
          good
    run-Inv (finishes at ∷ es) x before i good =
        run-Inv es _ before
          (finishes-Inv env codec c s m req x before i
            (λ n call e. good n call (get_elem?-append before (made es) n call e)) at)
          good
    run-Inv (receives ∷ es) x before i good =
        run-Inv es _ before
          (receives-Inv env codec c s m req x before i
            (λ n call e. good n call (get_elem?-append before (made es) n call e)))
          good

    pub settled-IsSignalled :
        (n : ℕ) (call : Call V)
        → IsGood env codec c s m req n call
        → IsSignalled (settled env codec c s m req n call)
    settled-IsSignalled n call good = (answer_call-Wakes env _).wakes call good.room

    -- In every interleaving of calls, reads, answers in any order and receipts on one connection
    -- the connection stays open, and each call made either still waits unchanged under its own
    -- number, with its request or its answer on the way, or has got the answer to its own request,
    -- which wakes its caller. Conditions: the client is new and has a codec; every call names a
    -- method, has room in its channel, its request can be made, request and answer fit the format,
    -- the client can read the answer, and the sequence numbers do not wrap.
    pub run-Progress :
        (es : List (Event V))
        → IsNew c
        → AllGood env codec c s m req (made es)
        → let x = run env m (opened c s) es in
          (x.client.shutdown ≡ false)
          × ((n : ℕ) (call : Call V)
              → get_elem? (made es) n ≡ some call
              → Progress env codec c s m req x n call
                × IsSignalled (settled env codec c s m req n call))
    run-Progress es new good =
        (i.up, λ n call e. (i.each n call e, settled-IsSignalled n call (good n call e)))
      where
        i : Keeps (run env m (opened c s) es) (made es)
        i = run-Inv es (opened c s) [] (opened-Inv new) good
