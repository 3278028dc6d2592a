-- ===== src/Observers/Observer.antt =====
-- What the observers share: class Observer of art_observers/include/art_observers/observer.h, and
-- the end of the four functions `update`, which is the same code in each.
pub mod Full
use utexas_art_ros_pkg.Base.{ℕ, Bool, false, if◌then◌else◌, ℤ, pos}
use utexas_art_ros_pkg.Numeric.{Floats}
use utexas_art_ros_pkg.Observers.Filters.{FilterBase, configured, is_full}

-- art_msgs/msg/Observation.msg, without the name, which the `oid` determines
pub record ObservationMsg (F : Type 0) : Type 0 where
  pub oid : ℤ
  pub applicable : Bool
  pub clear : Bool
  pub time : F
  pub distance : F
  pub velocity : F
  pub nobjects : ℤ

-- An observer; `distance_filter` is a median filter and `velocity_filter` a mean one.
pub record Observer (F M V : Type 0) : Type 0 where
  pub observation : ObservationMsg F
  pub distance_filter : M
  pub velocity_filter : V
  pub prev_update : F

module _ {F M V : Type 0} ⦃fl : Floats F⦄ (median : FilterBase F M) (mean : FilterBase F V) where
  -- The constructors of an observer; the `ros::Time` of the last update is zero.
  unfoldable pub new_observer : ℤ → Observer F M V
  new_observer id = record {
    observation = record {
      oid = id;
      applicable = false;
      clear = false;
      time = fl.infinity;
      distance = fl.infinity;
      velocity = fl.nan;
      nobjects = pos 0;
    };
    distance_filter = configured median;
    velocity_filter = configured mean;
    prev_update = fl.of_int (pos 0);
  }

  -- the literal 0.1, a `double`
  abbrev pub tenth : F
  tenth = fl.ddiv (fl.of_int (pos 1)) (fl.of_int (pos 10))

  -- The velocity and the time to intersection, changed if the obstacle is getting closer.
  unfoldable pub closing : F → F × F → F × F
  closing filt_distance (filt_velocity, time) =
      let velocity =
        if fl.lt (fl.fneg tenth) filt_velocity then fl.to_float tenth else filt_velocity in
      if fl.lt filt_velocity (fl.of_int (pos 0))
      then (velocity, fl.fabs (fl.fdiv filt_distance velocity))
      else (filt_velocity, time)

  -- The end of `update`, for a distance and the time of the call; AdjacentLeft runs the test for a
  -- closing obstacle `twice`.
  unfoldable pub report : Bool → Observer F M V → F → F → Observer F M V
  unfolding closing is_full
  report twice o distance current_update =
      let (distance_filter, filt_distance) = median.update o.distance_filter distance in
      let time_change = fl.dsub current_update o.prev_update in
      let velocity =
        fl.to_float (fl.ddiv (fl.fsub filt_distance o.observation.distance) time_change) in
      let (velocity_filter, filtered) = mean.update o.velocity_filter velocity in
      let once = closing filt_distance (filtered, fl.infinity) in
      let (filt_velocity, time) = if twice then closing filt_distance once else once in
      record {
        observation = record o.observation {
          distance = filt_distance;
          velocity = filt_velocity;
          time = fl.to_float time;
          clear = fl.lt (fl.of_int (pos 10)) time;
          applicable = is_full mean velocity_filter;
        };
        distance_filter = distance_filter;
        velocity_filter = velocity_filter;
        prev_update = current_update;
      }
