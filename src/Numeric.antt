-- ===== src/Numeric.antt =====
-- The C `float` and `double` arithmetic that the road map and the planner call, as an interface:
-- every `float` value is also a `double`, so that both have the one carrier `F`. The functions
-- of art_common/include/art/epsilon.h and art_map/include/art_map/euclidean_distance.h over it.
use utexas_art_ros_pkg.Base.{
  ℕ, zero, suc, ◌+◌, ◌-◌, ◌*◌, ◌/◌, Bool, true, ◌&&◌, ◌||◌, not, if◌then◌else◌, ltb, ℤ, pos, negsuc,
  pos_part, neg_part, ltb_ℤ, eqb_ℤ, ◌+ℤ◌, ◌-ℤ◌,
}

-- The operations that the processor and libm supply. `lt`, `le` are the comparisons; `fsub` and
-- the other `f` operations round to a `float`, the `d` operations to a `double`.
pub record Floats (F : Type 0) : Type 0 where
  pub of_int : ℤ → F  -- an integral literal
  pub lt : F → F → Bool
  pub le : F → F → Bool
  pub fmin : F → F → F
  pub fmax : F → F → F
  pub fadd : F → F → F
  pub fsub : F → F → F
  pub fmul : F → F → F
  pub fdiv : F → F → F
  pub fsqrt : F → F
  pub fabs : F → F
  pub fneg : F → F
  pub dadd : F → F → F
  pub dsub : F → F → F
  pub dmul : F → F → F
  pub ddiv : F → F → F
  pub dsqrt : F → F
  pub dsin : F → F
  pub dcos : F → F
  pub dtan : F → F
  pub dpow : F → ℕ → F  -- pow, to a whole power
  pub rint : F → F
  pub truncate : F → ℤ  -- the conversion to `int`
  pub to_float : F → F  -- a `double` stored in a `float`
  pub float_value : F  -- 1e-5
  pub flt_max : F
  pub infinity : F
  pub nan : F  -- a quiet NaN
  pub distance_epsilon : F  -- 0.01
  pub atan2f : F → F → F
  pub sinf : F → F
  pub cosf : F → F
  pub from_degrees : F → F  -- angles::from_degrees
  pub pi : F  -- M_PI
  pub two_pi : F  -- 2.0 * M_PI
  pub half_pi : F  -- M_PI / 2.0

module _ {F : Type 0} ⦃fl : Floats F⦄ where
  -- the local `relativeError`
  pub relative_error : F → F → F
  relative_error a b =
      if fl.lt (fl.fabs a) (fl.fabs b)
      then fl.fabs (fl.fdiv (fl.fsub a b) b)
      else fl.fabs (fl.fdiv (fl.fsub a b) a)

  pub almost_equal_relative_or_absolute : F → F → F → F → Bool
  unfolding relative_error
  almost_equal_relative_or_absolute a b max_relative_error max_absolute_error =
      if fl.lt (fl.fabs (fl.fsub a b)) max_absolute_error
      then true
      else fl.le (relative_error a b) max_relative_error

  -- Epsilon::equal
  unfoldable pub equal : F → F → Bool
  unfolding almost_equal_relative_or_absolute
  equal a b = almost_equal_relative_or_absolute a b fl.float_value fl.float_value

  -- Epsilon::lte
  unfoldable pub lte : F → F → Bool
  unfolding equal
  lte a b = fl.lt a b || equal a b

  -- Epsilon::gte
  unfoldable pub gte : F → F → Bool
  unfolding equal
  gte a b = fl.lt b a || equal a b

-- Whole numbers, to run the model: an instance of the interface with no fractions.
abbrev pub abs_ℤ : ℤ → ℤ
abs_ℤ a = pos (pos_part a + neg_part a)

-- a sign and a magnitude
abbrev pub signed : Bool → ℕ → ℤ
signed negative n = if negative then pos 0 -ℤ pos n else pos n

abbrev pub opposite : ℤ → ℤ → Bool
opposite a b = not (ltb_ℤ a (pos 0)) && ltb_ℤ b (pos 0) || ltb_ℤ a (pos 0) && not (ltb_ℤ b (pos 0))

abbrev pub magnitude : ℤ → ℕ
magnitude a = pos_part a + neg_part a

-- rounded away from zero, so that no quotient but that of zero is zero
abbrev pub quotient : ℤ → ℤ → ℤ
quotient a b = signed (opposite a b) ((magnitude a + magnitude b - 1) / magnitude b)

abbrev pub product : ℤ → ℤ → ℤ
product a b = signed (opposite a b) (magnitude a * magnitude b)

-- The angle of a vector in degrees: exact on the axes, 45 degrees from them elsewhere.
abbrev pub bearing_of : ℤ → ℤ → ℤ
bearing_of y x =
    let steps = if ltb_ℤ (pos 0) x then 1 else if ltb_ℤ x (pos 0) then 3 else 2 in
    if eqb_ℤ y (pos 0)
    then if ltb_ℤ x (pos 0) then pos 180 else pos 0
    else signed (ltb_ℤ y (pos 0)) (45 * steps)

-- The sine of an angle between -180 and 270 degrees, but for its fraction.
abbrev pub sine : ℤ → ℤ
sine a =
    if eqb_ℤ a (pos 90)
    then pos 1
    else if eqb_ℤ a (negsuc 89) || eqb_ℤ a (pos 270)
    then negsuc 0
    else pos 0

-- the largest n, at most the fuel, with n * n ≤ m
abbrev pub square_root : ℕ → ℕ → ℕ
square_root zero m = 0
square_root (suc n) m = let rest = square_root n m in if ltb m (suc n * suc n) then rest else suc n

abbrev pub power : ℤ → ℕ → ℤ
power a zero = pos 1
power a (suc n) = product a (power a n)

instance abbrev pub whole : Floats ℤ
whole = record {
  of_int = λ a. a;
  lt = ltb_ℤ;
  le = λ a b. not (ltb_ℤ b a);
  fmin = λ a b. if ltb_ℤ b a then b else a;
  fmax = λ a b. if ltb_ℤ a b then b else a;
  fadd = ◌+ℤ◌;
  fsub = ◌-ℤ◌;
  fmul = product;
  fdiv = quotient;
  fsqrt = λ a. pos (square_root (pos_part a) (pos_part a));
  fabs = abs_ℤ;
  fneg = λ a. pos 0 -ℤ a;
  dadd = ◌+ℤ◌;
  dsub = ◌-ℤ◌;
  dmul = product;
  ddiv = quotient;
  dsqrt = λ a. pos (square_root (pos_part a) (pos_part a));
  dsin = sine;
  dcos = λ a. sine (a +ℤ pos 90);
  dtan = λ a. quotient (sine a) (sine (a +ℤ pos 90));
  dpow = power;
  rint = λ a. a;
  truncate = λ a. a;
  to_float = λ a. a;
  float_value = pos 0;
  flt_max = pos 1000000000;
  infinity = pos 2000000000;
  nan = pos 2000000001;
  distance_epsilon = pos 1;
  atan2f = bearing_of;
  sinf = sine;
  cosf = λ a. sine (a +ℤ pos 90);
  from_degrees = λ a. a;
  pi = pos 180;
  two_pi = pos 360;
  half_pi = pos 90;
}
