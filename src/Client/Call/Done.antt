-- ===== src/Client/Call/Done.antt =====
-- The branch of `call` in client/client.go that takes the call from Done.
use frpc.Base.{[], ◌∷◌, Option, none, some}
use frpc.Base.Bytes.{Bytes}
use frpc.Base.Dict.{Dict}
use frpc.Client.Call.{Call, Error}
use frpc.Server.Handle.{merge}

-- for k, v := range call.resMetadata { resMeta[k] = v }, where there is any.
unfoldable pub copy_res_metadata : Option (Dict Bytes) → Dict Bytes → Dict Bytes
unfolding merge
copy_res_metadata none meta = meta
copy_res_metadata (some []) meta = meta
copy_res_metadata (some (e ∷ more)) meta = merge (e ∷ more) meta

-- What `call` returns, and the map that the caller put into the context, if any.
unfoldable pub take_done :
    {V : Type 0} → Call V → Option (Dict Bytes) → Option Error × Option (Dict Bytes)
unfolding copy_res_metadata
take_done c none = (c.error, none)
take_done c (some meta) = (c.error, some (copy_res_metadata c.res_metadata meta))
