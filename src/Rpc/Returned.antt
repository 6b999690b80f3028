-- ===== src/Rpc/Returned.antt =====
-- The metadata that a method sets, at the end of a whole call.
use frpc.Base.{
  ◌≡◌, refl, ap, subst, ◌∙◌, ◌==◌, [], ◌∷◌, Option, none, some, inl, inr, Bool-cases, arith, length,
  get_elem?,
}
use frpc.Base.Bytes.{Bytes, eq, eq_iff}
use frpc.Base.Dict.{Dict, lookup, insert, lookup-insert, Missing, Distinct}
use frpc.Protocol.Header.{message_status_type, is_heartbeat, error_status}
use frpc.Protocol.Message.{Message, new_message, encode}
use frpc.Protocol.Message.RoundTrip.{HasDistinct, carried, received}
use frpc.Client.Call.{Call, Client, Env, call_done}
use frpc.Client.Call.Done.{copy_res_metadata, take_done}
use frpc.Client.Call.Response.{answer_call}
use frpc.Client.Call.Send.{go_call}
use frpc.Server.Handle.{Server, merge, add_metadata}
use frpc.Rpc.{answer, exchange}
use frpc.Rpc.Exchange.{handled}
use frpc.Rpc.Metadata.{lookup-merge}
use frpc.Rpc.Whole.{Calls, go_call-answer_call}

-- What is merged in is found.
lookup-merge_found :
    (k v : Bytes) (more meta : Dict Bytes)
    → Distinct more
    → lookup k more ≡ some v
    → lookup k (merge more meta) ≡ some v
unfolding merge lookup
lookup-merge_found k v [] meta d e = absurd (cc)
lookup-merge_found k v ((j, w) ∷ more) meta (n, d) e = elim (Bool-cases (eq j k)) [
  | inl same ↦
      lookup-merge k more (insert j w meta) (subst (λ x. Missing x more) ((eq_iff j k).0 same) n)
      ∙ lookup-insert j k w meta
      ∙ rw same (rw (same, lookup) at e)
  | inr other ↦ lookup-merge_found k v more (insert j w meta) d (rw (other, lookup) at e)
]

-- Over the wire and into the caller's map.
copy_res_metadata_found :
    (k v : Bytes) (more : Dict Bytes) (o old : Option (Dict Bytes)) (meta : Dict Bytes)
    → Distinct more
    → HasDistinct (add_metadata more o)
    → lookup k more ≡ some v
    → lookup k (copy_res_metadata (carried old (add_metadata more o)) meta) ≡ some v
unfolding copy_res_metadata add_metadata
copy_res_metadata_found k v [] o old meta d f e = absurd (unfold lookup in cc)
copy_res_metadata_found k v (x ∷ more) none old meta d f e =
    lookup-merge_found k v (x ∷ more) meta d e
copy_res_metadata_found k v (x ∷ more) (some own) old meta d f e =
    of_merged (merge (x ∷ more) own) f (lookup-merge_found k v (x ∷ more) own d e)
  where
    of_merged :
        (m : Dict Bytes)
        → Distinct m
        → lookup k m ≡ some v
        → lookup k (copy_res_metadata (carried old (some m)) meta) ≡ some v
    of_merged [] f e = absurd (unfold lookup in cc)
    of_merged (y ∷ m) f e = lookup-merge_found k v (y ∷ m) meta f e

call_done-res_metadata : {V : Type 0} (c : Call V) → (call_done c).res_metadata ≡ c.res_metadata
unfolding call_done
call_done-res_metadata c = ground arith

answer_call-res_metadata :
    {V : Type 0} (env : Env V) (res : Message) (call : Call V)
    → (answer_call env res call).0.res_metadata ≡ res.metadata
unfolding answer_call
answer_call-res_metadata env res call =
    elim (Bool-cases (message_status_type res.header == error_status)) [
      | inl e ↦ rw (e, answer_call) (call_done-res_metadata _)
      | inr e ↦ elim (Bool-cases (is_heartbeat res.header)) [
        | inl b ↦ rw (e, b, answer_call) (call_done-res_metadata _)
        | inr b ↦ rw (e, b, answer_call) (call_done-res_metadata _)
      ]
    ]

-- A whole call: what the method puts into the metadata reaches the caller. After Go and the
-- exchange, the call that Go made, when the caller takes it from Done, puts every entry that the
-- method set into the map of the caller's context, whatever that map and the metadata of the
-- request held, and whether the call succeeded or not. Conditions: the connection is open and has
-- a codec; the call names a method, its channel has room, its request can be made and the sequence
-- number is below 2^64; request and answer have bodies below 2^32 bytes and no key twice; the
-- method's map has no key twice.
pub take_done-metadata :
    {V W : Type 0} (s : Server W) (m : Message) (env : Env V) (r : Message) (c : Client V)
    (call : Call V) (req : Message) (own : Dict Bytes) (k v : Bytes)
    → Calls s m env c call req
    → Distinct (handled s m req).extra
    → lookup k (handled s m req).extra ≡ some v
    → let c' = exchange s m env r (go_call env new_message none call c) (encode req) in
      (answered : Call V) × (meta : Dict Bytes) × (get_elem? c'.calls (length c.calls)
        ≡ some answered)
      × (take_done answered (some own) ≡ (answered.error, some meta))
      × (lookup k meta ≡ some v)
unfolding answer take_done
take_done-metadata s m env r c call req own k v calls d e =
    let h = handled s m req in
    let answered = (answer_call env (received r (answer h)) call).0 in
    (
      answered,
      copy_res_metadata answered.res_metadata own,
      go_call-answer_call s m env r c call req calls,
      refl,
      ap (λ o. lookup k (copy_res_metadata o own))
            (answer_call-res_metadata env (received r (answer h)) call)
          ∙ copy_res_metadata_found k v h.extra h.res.metadata r.metadata own d calls.fits_back.1 e,
    )
