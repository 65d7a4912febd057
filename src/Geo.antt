-- ===== src/Geo.antt =====
-- Points of PostGIS. A coordinate is a float that the program passes on to the database and never
-- computes with, so it is carried by its bit pattern; `ST_DWithin` is a parameter of its callers.
use civicbrain_v.Base.{ℕ, Bool, Option, some, none}

-- `ST_SetSRID(ST_MakePoint(lon, lat), 4326)`
pub record Point : Type 0 where
  pub lon : ℕ
  pub lat : ℕ

-- `ST_DWithin(geom::geography, point::geography, 50.0)` on points that are not NULL.
abbrev pub Within : Type 0
Within = Point → Point → Bool

-- The functions of PostGIS are strict: a NULL coordinate makes the point NULL.
abbrev pub make_point : Option ℕ → Option ℕ → Option Point
make_point (some x) (some y) = some (record { lon = x; lat = y })
make_point none _ = none
make_point (some _) none = none
