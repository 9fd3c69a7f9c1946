-- ===== src/Maps.antt =====
-- packages/maps/src/index.ts: distanceMetersBetween. The adapter beside it answers with nothing.
use nodex_v.Prelude.{ℕ}
use nodex_v.Prelude.Double.{Double}

abbrev pub earth_radius_meters : ℕ
earth_radius_meters = 6371000

pub record Place (D : Type 0) : Type 0 where
  pub lat : D
  pub lng : D

unfoldable pub degrees_to_radians : (F : Double) → F.D → F.D
degrees_to_radians F degrees = F.over (F.times degrees F.pi) (F.of_nat 180)

-- `a` of the haversine formula.
unfoldable pub haversine : (F : Double) → Place F.D → Place F.D → F.D
unfolding degrees_to_radians
haversine F start end_place =
    let d_lat = degrees_to_radians F (F.minus end_place.lat start.lat) in
    let d_lng = degrees_to_radians F (F.minus end_place.lng start.lng) in
    let start_lat = degrees_to_radians F start.lat in
    let end_lat = degrees_to_radians F end_place.lat in
    F.plus (F.pow (F.sin (F.over d_lat (F.of_nat 2))) (F.of_nat 2)) (
      F.times (F.times (F.cos start_lat) (F.cos end_lat))
        (F.pow (F.sin (F.over d_lng (F.of_nat 2))) (F.of_nat 2)))

unfoldable pub distance_meters_between : (F : Double) → Place F.D → Place F.D → F.D
unfolding haversine
distance_meters_between F start end_place =
    let a = haversine F start end_place in
    F.times (F.times (F.of_nat 2) (F.of_nat earth_radius_meters))
      (F.atan2 (F.sqrt a) (F.sqrt (F.minus (F.of_nat 1) a)))
