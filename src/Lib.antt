-- ===== src/Lib.antt =====
-- The planning and control core of the ART autonomous vehicle (stacks/art_vehicle): the road map, the
-- commander that plans a route through the checkpoints of a mission, the orders that it sends to the
-- navigator once per cycle, the state machines of the navigator that turn an order into a
-- command of speed and yaw rate, the lane observers that tell it of obstacles, the protocol of the
-- throttle controller, and the relays.
--
-- The parts and the files that model them, with paths below stacks/art_vehicle:
--
--   Numeric: the floating-point numbers are a parameter, the record `Floats`; `whole` is the
--   instance over the whole numbers that the tests run, with angles in degrees. It also has the comparisons of
--   art_common/include/art/epsilon.h.
--   RoadMap/Element, RoadMap/WayPoint: ElementID, WayPointNode and WayPointEdge of
--   art_map/include/art_map/types.h, with their conversions to and from the messages. Identifiers
--   are 16-bit words, signed in the program and unsigned in the messages.
--   RoadMap/Graph: class Graph of art_map/include/art_map/Graph.h, and the queries of
--   art_map/src/lib/Graph.cc. `edges_size` is kept beside the vector of edges as in the
--   source, and loops run up to it. Graph/Passing and Graph/Implicit: the lane changes that find_implicit_edges adds,
--   with passing_allowed and lanes_in_same_direction; an access out of bounds is `none`. Graph/Measure and Graph/Utm: where
--   the way-points are on the map and how long the edges are, with the projection of
--   art_common/include/art/UTM.h, and the two calls that build_graph of art_nav/src/commander/ros_node.cc makes.
--   Lanes/Geometry: poses, bearings and distances in the plane, art_map/include/art_map/coordinates.h and
--   euclidean_distance.h. Each loop of `normalize` runs on 100 rounds, where the headings of the program, sums and
--   differences of normalized ones, take one.
--   Lanes/Poly: class poly of art_map/include/art_map/PolyOps.h, and the operations of class PolyOps of
--   art_map/src/lib/PolyOps.cc on one polygon, with its message in Lanes/Message, of
--   which the code reads four points without a check, and the model has these four. The other operations take lists of polygons: the closest and the
--   containing one (Lanes/Closest), the loops that fill a list from another (Lanes/Select), distances along a
--   lane (Lanes/Along), the lanes beside a lane (Lanes/Adjacent), and the perimeter of a road (Lanes/Perimeter).
--   An index that is an `int` is an Option, whose `none` is -1. The loop of getReverseLane, which has no bound in the source,
--   runs on a fuel that its caller gives.
--   Messages: NavigatorState and Order of art_msgs/msg.
--   Commander/Route: class Path of art_nav/src/commander/Path.h.
--   Commander/Mission: class Mission of art_nav/src/lib/Mission.cc, the queue of checkpoints. To pop from an empty deque
--   is `none`, and a fault of the commander.
--   Commander/Blockages: class Blockages of art_nav/src/commander/Blockage.cc, which changes the graph.
--   Commander/Search: GraphSearch::astar_search of art_nav/src/lib/GraphSearch.cc. Which of the least
--   entries std::priority_queue takes is the parameter `TopChoice`. The main loop runs on the fuel
--   `search_fuel`, more than all the entries that can be pushed, since a round closes a node or only takes
--   an entry off.
--   Commander/State, Commander/Planning: class Commander of art_nav/src/commander/command.cc, its
--   goals and replan_route. The recursion of replan_route runs on a fuel of one more than the number of
--   blockages, each of which it lifts at most once. A null pointer that is followed ends a run in `fault`.
--   Commander/Outcomes: properties of a run that ends without a fault.
--   Commander/Orders: prepare_order of command.cc.
--   Commander/Fsm: class CmdrFSM of art_nav/src/commander/FSM.cc: the transition table and the walk
--   along the route (Fsm), current_event (Fsm/Event), the actions, control and Commander::command
--   (Fsm/Control), and what is proved of them (Fsm/Walk, Fsm/Runs).
--   Navigator/State: what the controllers of art_nav/src/navigator share: the results of Controller.h, the
--   timers of ntimer.h, the data of class Navigator and the controller Halt. `rest` is the state that
--   the geometric code keeps, of any type.
--   Navigator/Course: the bookkeeping of class Course of course.cc and course.h, without its geometry.
--   Navigator/Course/Plan: the polygons that class Course steers by: the plan of the travel lane, the lane to pass in
--   (Plan/Passing), and the distances, tests and directions that it finds with them (Plan/Reached). The record
--   `Lanes` is the state that the bookkeeping calls `rest`. The machines of Run and Road take what they ask of the
--   lanes as parameters of their own, and are not joined to this model.
--   Navigator/Obstacle: the observations of class Obstacle and FollowSafely::control. An index that is
--   out of bounds is `none`.
--   Navigator/Estop: class Estop of estop.cc over the interface `RunControl`, which Navigator/Run fills.
--   Navigator/Road: class Road of road.cc: the transition table and the machine's variables, the steady
--   actions while driving (Road/Steady) and waiting (Road/Waiting), and the entry actions, control and reset
--   (Road/Entry). The controllers FollowLane, Passing and Uturn, and the questions that
--   the machine asks of lane polygons, are the parameter `Roadwork`.
--   Navigator/Run: class Run of run.cc and Navigator::navigate of navigator.cc. What Run asks of the lane
--   polygons and the pose is the parameter `Terrain`.
--   Navigator/Curves, Navigator/StopLine: the controllers SlowForCurves and StopLine of slow_for_curves.cc and
--   stop_line.cc, on the polygons and poses of the record `Lanes`; StopLine slows down with the functions of Navigator/Stop.
--   Navigator/Stop: the controllers Stop and Passing of stop.cc and passing.cc. What Passing asks of observers and
--   lasers, and the controllers that it calls, are the parameter `PassingWork`.
--   Servo/Packet, Servo/Exchange: the protocol of the throttle controller, avr_controller.h and
--   devthrottle.cc of art_servo/src/throttle: the packets as bytes, and a command with its response. What
--   the serial line delivers until a read fails is the parameter `Device`; a write or read out of bounds is `none`.
--   Servo/Relays: class dev8x of art_servo/src/ioadr/dev8x.cc; what write and read return is an argument of
--   each operation.
--   Observers: the lane observers, package art_observers. Quads has src/observers/QuadrilateralOps.cc and
--   getObstaclesInLane, Filters and Observer what the four observers share, Nearest and Adjacent the observers of
--   src/observers, and Node the node of src/nodes/lane_observations.cc, whose callbacks are the events of a run
--   (Node/Events). The filters of the package filters, of which `Fills` is what a property relies on, the transforms of tf and
--   the clock are parameters. An index -1 that the code reads at is `none`.
--   Base: the shared names, tests, integers and lists. Tests: runs at concrete inputs.
--
-- In a cycle the commander keeps the navigator's state, finds the most urgent event, which walks the
-- route and ticks off checkpoints, goes through the transition table, and performs the action, which may
-- make a new plan, and prepares the order.
--
-- In a cycle the navigator runs the E-stop machine on the order; in its state Run the controller Run drops
-- the way-points already passed and gives an order Go to the road machine, which takes the event that its
-- last cycle left pending through its table and performs the action, a controller's or a halt.
--
-- In a cycle of the observers node the obstacle points mark the polygons of the local map that they lie in, and
-- each observer measures along its lane to one of these, filters the distance and its change, and publishes
-- them.
--
-- Not modelled: logging and printing; the files that Mission::save and Graph::save write; ROS messages, timing and
-- parameters; the pointers between the commander and its parts, which no property needs, but for the
-- navigator's state, of which the commander and the state machine have one each, as in the source. Of
-- the navigator's message the copy of the order and the number of the current polygon are left out, and code
-- under NOT_PORTED_TO_ROS and NQE, which the build does not compile. How lanes and zones are
-- made of way-points, the controllers that steer in lanes and zones, and the other drivers are other parts of the
-- repository.
pub mod Base
pub mod Numeric
pub mod RoadMap
pub mod Lanes
pub mod Messages
pub mod Commander
pub mod Navigator
pub mod Observers
pub mod Servo
pub mod Tests
