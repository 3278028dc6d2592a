-- ===== src/RoadMap/Graph/Utm.antt =====
-- The projection of a latitude and longitude, UTM::UTM of art_common/include/art/UTM.h, in `double`s.
use utexas_art_ros_pkg.Base.{ℕ, ◌+◌, ◌%◌, if◌then◌else◌, ℤ, pos, negsuc, ◌+ℤ◌, ◌-ℤ◌}
use utexas_art_ros_pkg.Numeric.{Floats}

-- the remainder by 6 of an `int`, which has the sign of the number
abbrev rem_six : ℤ → ℤ
rem_six (pos n) = pos (n % 6)
rem_six (negsuc n) = pos 0 -ℤ pos ((n + 1) % 6)

module _ {F : Type 0} ⦃fl : Floats F⦄ where
  infixl 65 ◌⊞◌ ◌⊟◌
  infixl 70 ◌⊠◌ ◌⊘◌
  abbrev ◌⊞◌ : F → F → F
  ◌⊞◌ = fl.dadd

  abbrev ◌⊟◌ : F → F → F
  ◌⊟◌ = fl.dsub

  abbrev ◌⊠◌ : F → F → F
  ◌⊠◌ = fl.dmul

  abbrev ◌⊘◌ : F → F → F
  ◌⊘◌ = fl.ddiv

  abbrev num : ℕ → F
  num n = fl.of_int (pos n)

  -- WGS84_A, UTM_E2, UTM_E4, UTM_E6, UTM_EP2 and grid_size
  abbrev wgs84_a : F
  wgs84_a = num 6378137

  abbrev utm_e2 : F
  utm_e2 = (num 818191908 ⊘ num 10000000000) ⊠ (num 818191908 ⊘ num 10000000000)

  abbrev utm_e4 : F
  utm_e4 = utm_e2 ⊠ utm_e2

  abbrev utm_e6 : F
  utm_e6 = utm_e4 ⊠ utm_e2

  abbrev utm_ep2 : F
  utm_ep2 = utm_e2 ⊘ (num 1 ⊟ utm_e2)

  abbrev pub grid_size : F
  grid_size = num 100000

  -- RADIANS_PER_DEGREE
  abbrev radians_per_degree : F
  radians_per_degree = fl.pi ⊘ num 180

  -- the distance along the meridian, M
  unfoldable meridian : F → F
  meridian rlat =
      let m0 = num 1 ⊟ utm_e2 ⊘ num 4 ⊟ num 3 ⊠ utm_e4 ⊘ num 64 ⊟ num 5 ⊠ utm_e6 ⊘ num 256 in
      let m1 =
        fl.fneg (num 3 ⊠ utm_e2 ⊘ num 8 ⊞ num 3 ⊠ utm_e4 ⊘ num 32 ⊞ num 45 ⊠ utm_e6 ⊘ num 1024) in
      let m2 = num 15 ⊠ utm_e4 ⊘ num 256 ⊞ num 45 ⊠ utm_e6 ⊘ num 1024 in
      let m3 = fl.fneg (num 35 ⊠ utm_e6 ⊘ num 3072) in
      wgs84_a
      ⊠ (m0 ⊠ rlat
          ⊞ m1 ⊠ fl.dsin (num 2 ⊠ rlat)
          ⊞ m2 ⊠ fl.dsin (num 4 ⊠ rlat)
          ⊞ m3 ⊠ fl.dsin (num 6 ⊠ rlat))

  unfoldable pub utm : F → F → F × F
  unfolding meridian
  utm lat lon =
      let whole_lon = fl.truncate lon in
      let cm =
        if fl.le (num 0) lon
        then whole_lon -ℤ rem_six whole_lon +ℤ pos 3
        else whole_lon -ℤ rem_six whole_lon -ℤ pos 3 in
      let rlat = lat ⊠ radians_per_degree in
      let rlon = lon ⊠ radians_per_degree in
      let rlon0 = fl.of_int cm ⊠ radians_per_degree in
      let slat = fl.dsin rlat in
      let clat = fl.dcos rlat in
      let tlat = fl.dtan rlat in
      let fn = if fl.lt (num 0) lat then num 0 else num 10000000 in
      let t = tlat ⊠ tlat in
      let c = utm_ep2 ⊠ clat ⊠ clat in
      let a = (rlon ⊟ rlon0) ⊠ clat in
      let v = wgs84_a ⊘ fl.dsqrt (num 1 ⊟ utm_e2 ⊠ slat ⊠ slat) in
      let k0 = num 9996 ⊘ num 10000 in
      (
        num 500000
            ⊞ k0
              ⊠ v
              ⊠ (a
                  ⊞ (num 1 ⊟ t ⊞ c) ⊠ fl.dpow a 3 ⊘ num 6
                  ⊞ (num 5 ⊟ num 18 ⊠ t ⊞ t ⊠ t ⊞ num 72 ⊠ c ⊟ num 58 ⊠ utm_ep2)
                    ⊠ fl.dpow a 5
                    ⊘ num 120),
        fn
            ⊞ k0
              ⊠ (meridian rlat
                  ⊞ v
                    ⊠ tlat
                    ⊠ (a ⊠ a ⊘ num 2
                        ⊞ (num 5 ⊟ t ⊞ num 9 ⊠ c ⊞ num 4 ⊠ c ⊠ c) ⊠ fl.dpow a 4 ⊘ num 24
                        ⊞ (num 61 ⊟ num 58 ⊠ t ⊞ t ⊠ t ⊞ num 600 ⊠ c ⊟ num 330 ⊠ utm_ep2)
                          ⊠ fl.dpow a 6
                          ⊘ num 720)),
      )
