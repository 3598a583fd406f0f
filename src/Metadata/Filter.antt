-- ===== src/Metadata/Filter.antt =====
-- crates/surgedb-core/src/filter.rs: the filters and their meaning on one metadata value.
use zapybase.Prelude.{String, Bool, true, false, not, ◌&&◌, ◌||◌, Option, none, some, List, [], ◌∷◌}
use zapybase.Float.{is_less, is_less_or_equal, is_greater, is_greater_or_equal}
use zapybase.Metadata.Json.{Value, array, object, cons, nil, Serde, find_field, get_value_by_path}

mutual
  pub data Filter (N F : Type 0) : Type 0 where
    exact : String → Value N → Filter N F
    one_of : String → List (Value N) → Filter N F
    all_of : Filters N F → Filter N F
    any_of : Filters N F → Filter N F
    not_of : Filter N F → Filter N F
    range : String → Option F → Option F → Option F → Option F → Filter N F
    geo_radius : String → F × F → F → Filter N F

  pub data Filters (N F : Type 0) : Type 0 where
    none_left : Filters N F
    next : Filter N F → Filters N F → Filters N F

abbrev pub or_else {ℓ} : {A : Type ℓ} → Option A → Option A → Option A
or_else none b = b
or_else (some a) b = some a

infixl 5 ◌>>=◌
abbrev ◌>>=◌ {ℓ κ} : {A : Type ℓ} {B : Type κ} → Option A → (A → Option B) → Option B
none >>= f = none
some a >>= f = f a

-- A bound that is absent holds.
abbrev bound {ℓ} : {F : Type ℓ} → Option F → (F → Bool) → Bool
bound none test = true
bound (some limit) test = test limit

module _ (s : Serde) where
  open s use {Number, float, value_eq, as_f64}
  open float use {Num, partial_cmp, add, sub, mul, div, sqrt, sin, cos, atan2, to_radians, from_nat}

  unfoldable pub parse_geo_point : Value Number → Option (Num × Num)
  unfolding find_field
  parse_geo_point (object fs) = do
    lat ← or_else (find_field "lat" fs) (find_field "latitude" fs)
    lat' ← as_f64 lat
    lon ← or_else (find_field "lon" fs) (find_field "longitude" fs)
    lon' ← as_f64 lon
    some (lat', lon')
  parse_geo_point (array (cons a (cons b nil))) = do lat ← as_f64 a; lon ← as_f64 b; some (lat, lon)
  parse_geo_point v = none

  unfoldable pub haversine_distance : Num → Num → Num → Num → Num
  haversine_distance lat1 lon1 lat2 lon2 =
      let two = from_nat 2 in
      let d_lat = to_radians (sub lat2 lat1) in
      let d_lon = to_radians (sub lon2 lon1) in
      let s_lat = sin (div d_lat two) in
      let s_lon = sin (div d_lon two) in
      let a =
        add (mul s_lat s_lat)
          (mul (mul (cos (to_radians lat1)) (cos (to_radians lat2))) (mul s_lon s_lon)) in
      let c = mul two (atan2 (sqrt a) (sqrt (sub (from_nat 1) a))) in mul (from_nat 6371000) c

  unfoldable pub contains : List (Value Number) → Value Number → Bool
  contains [] actual = false
  contains (v ∷ allowed) actual = value_eq v actual || contains allowed actual

  unfoldable pub in_range : Num → Option Num → Option Num → Option Num → Option Num → Bool
  in_range num gt gte lt lte =
      bound gt (λ limit. is_greater (partial_cmp num limit))
      && (bound gte (λ limit. is_greater_or_equal (partial_cmp num limit))
          && (bound lt (λ limit. is_less (partial_cmp num limit))
              && bound lte (λ limit. is_less_or_equal (partial_cmp num limit))))

  abbrev or_false {ℓ} : {A : Type ℓ} → Option A → (A → Bool) → Bool
  or_false none test = false
  or_false (some a) test = test a

  unfoldable mutual
    unfolding contains in_range parse_geo_point haversine_distance get_value_by_path

    pub matches : Filter Number Num → Value Number → Bool
    matches (exact key expected) metadata =
        or_false (get_value_by_path metadata key) (λ actual. value_eq actual expected)
    matches (one_of key allowed) metadata =
        or_false (get_value_by_path metadata key) (λ actual. contains allowed actual)
    matches (all_of filters) metadata = all_match filters metadata
    matches (any_of filters) metadata = any_match filters metadata
    matches (not_of filter) metadata = not (matches filter metadata)
    matches (range field gt gte lt lte) metadata =
        or_false (get_value_by_path metadata field)
          λ value. or_false (as_f64 value) λ num. in_range num gt gte lt lte
    matches (geo_radius field center radius) metadata =
        or_false (get_value_by_path metadata field) λ value.
          or_false (parse_geo_point value) λ point.
            is_less_or_equal
              (partial_cmp (haversine_distance center.0 center.1 point.0 point.1) radius)

    pub all_match : Filters Number Num → Value Number → Bool
    all_match none_left metadata = true
    all_match (next f filters) metadata = matches f metadata && all_match filters metadata

    pub any_match : Filters Number Num → Value Number → Bool
    any_match none_left metadata = false
    any_match (next f filters) metadata = matches f metadata || any_match filters metadata
