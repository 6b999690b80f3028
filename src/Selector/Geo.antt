-- ===== src/Selector/Geo.antt =====
-- The geo selector of selector/selector_geo.go. The floats with their order and the distance, the
-- parser of the metadata, and the random number are parameters.
use frpc.Base.{
  ℕ, ◌<◌, ◌≡◌, refl, List, [], ◌∷◌, ◌++◌, Bool, Option, none, some, arith, if◌then◌else◌, length,
  replicate, get_elem?,
}
use frpc.Base.Bytes.{Bytes}
use frpc.Base.Dict.{Dict}

-- float64: its order, math.MaxFloat64, and getDistanceFrom of two places.
pub record Floats (F : Type 0) : Type 0 where
  pub less : F → F → Bool
  pub equal : F → F → Bool
  pub max : F
  pub distance : F × F → F × F → F

pub record GeoServer (F : Type 0) : Type 0 where
  pub server : Bytes
  pub place : F × F

module _ {F : Type 0} where
  -- The loop of createGeoServer; `place_of` is the latitude and longitude that url.ParseQuery and
  -- strconv.ParseFloat find in the metadata.
  unfoldable pub placed : (Bytes → Option (F × F)) → Dict Bytes → List (Option (GeoServer F))
  placed place_of [] = []
  placed place_of ((k, metadata) ∷ servers) =
      let rest = placed place_of servers in
      elim (place_of metadata) [
        | none ↦ rest
        | some p ↦ some (record { server = k; place = p }) ∷ rest
      ]

  -- createGeoServer: `make` gives a list of that many nil pointers, and append goes behind them.
  unfoldable pub create_geo_server :
      (Bytes → Option (F × F)) → Dict Bytes → List (Option (GeoServer F))
  unfolding placed
  create_geo_server place_of servers = replicate (length servers) none ++ placed place_of servers

  -- The loop of Select: the nearest servers and their distance; `none` is the panic at a nil pointer.
  unfoldable pub nearest :
      Floats F → F × F → List (Option (GeoServer F)) → List Bytes → F → Option (List Bytes)
  nearest f here [] found min = some found
  nearest f here (none ∷ servers) found min = none
  nearest f here (some gs ∷ servers) found min =
      let d = f.distance here gs.place in
      let closer = nearest f here servers (gs.server ∷ []) d in
      let as_close = nearest f here servers (found ++ (gs.server ∷ [])) min in
      let farther = nearest f here servers found min in
      if f.less d min then closer else if f.equal d min then as_close else farther

  -- Select; `intn` is the random number below its argument, and Intn panics for 0.
  unfoldable pub geo_select :
      Floats F → (ℕ → ℕ) → F × F → List (Option (GeoServer F)) → Option Bytes
  unfolding nearest
  geo_select f intn here [] = some []
  geo_select f intn here (gs ∷ servers) = elim (nearest f here (gs ∷ servers) [] f.max) [
    | none ↦ none
    | some [] ↦ none
    | some (x ∷ []) ↦ some x
    | some (x ∷ y ∷ more) ↦ get_elem? (x ∷ y ∷ more) (intn (length (x ∷ y ∷ more)))
  ]

  geo_select-create_geo_server :
      (f : Floats F) (intn : ℕ → ℕ) (here : F × F) (place_of : Bytes → Option (F × F))
      (servers : Dict Bytes)
      → 0 < length servers
      → geo_select f intn here (create_geo_server place_of servers) ≡ none
  unfolding geo_select create_geo_server
  geo_select-create_geo_server f intn here place_of [] p = absurd (omega arith)
  geo_select-create_geo_server f intn here place_of (s ∷ servers) p = refl
