-- ===== src/Lifecycle.antt =====
-- The life of a client: src/client/lifecycle.cpp.
--
-- Each call is one step. An `Attempt` says what comes of the new connection. A call of `run` ends when
-- another thread calls `stop`; `Left` is what the threads leave behind by then. A thread is the flag
-- whether it is joinable. The callback for states is taken not to throw; telemetry is left out.
pub mod Threads
pub mod Restart
mod Tests
use kraken_sdk.Common.{
  Bool, true, false, not, ◌&&◌, ◌||◌, if◌then◌else◌, Option, none, some, List, [], ◌∷◌,
}
use kraken_sdk.Subscription.{Request}
use kraken_sdk.Subscription.Client.{Client, send_pending_subscriptions}
use kraken_sdk.Reconnect.{ConnectionState, disconnected, connecting, connected, reconnecting}

-- What the configuration says: `offline_mode()`, and whether a queue is used.
pub record Settings : Type 0 where
  pub offline_mode : Bool
  pub use_queue : Bool

-- `connection` is `none` for a null pointer, and else whether the connection is open.
pub record Life : Type 0 where
  pub state : ConnectionState
  pub connection : Option Bool
  pub running : Bool
  pub stop_requested : Bool
  pub io_thread : Bool
  pub dispatcher_thread : Bool

-- `threw` is the exception `ConnectionError`; `terminated` is `std::terminate`, which the assignment to
-- a joinable thread calls.
pub data Outcome : Type 0 where
  returned threw terminated : Outcome

-- After a call: the states that the callback got, and the requests sent.
pub record Done : Type 0 where
  pub life : Life
  pub outcome : Outcome
  pub states : List ConnectionState
  pub requests : List Request

pub record Left : Type 0 where
  pub state : ConnectionState
  pub connection : Option Bool

unfoldable pub client_life : Life
client_life = record {
  state = disconnected;
  connection = none;
  running = false;
  stop_requested = false;
  io_thread = false;
  dispatcher_thread = false;
}

abbrev pub is_connected_state : ConnectionState → Bool
is_connected_state connected = true
is_connected_state _ = false

unfoldable pub is_connected : Life → Bool
is_connected l = is_connected_state l.state

-- The states in which `connect` returns at once.
abbrev pub is_connecting_state : ConnectionState → Bool
is_connecting_state connected = true
is_connecting_state connecting = true
is_connecting_state _ = false

abbrev pub closed : Option Bool → Option Bool
closed none = none
closed (some up) = some false

abbrev pub is_open : Option Bool → Bool
is_open none = false
is_open (some up) = up

abbrev pub returning : Life → Done
returning l = record { life = l; outcome = returned; states = []; requests = [] }

-- A connection that is opened, one that is made and whose `connect()` throws, and one whose
-- constructor throws, so that `connection_` is what it was.
pub data Attempt : Type 0 where
  opened not_opened not_made : Attempt

abbrev pub is_opened : Attempt → Bool
is_opened opened = true
is_opened _ = false

abbrev pub left_by : Attempt → Option Bool → Option Bool
left_by not_made before = before
left_by _ before = some false

unfoldable pub connect : Life → Attempt → Done
connect l ok =
    if is_connecting_state l.state
    then returning l
    else if is_opened ok
    then record {
      life = record l { state = connected; connection = some true };
      outcome = returned;
      states = connecting ∷ connected ∷ [];
      requests = [];
    }
    else record {
      life = record l { state = disconnected; connection = left_by ok l.connection };
      outcome = threw;
      states = connecting ∷ disconnected ∷ [];
      requests = [];
    }

unfoldable pub disconnect : Life → Done
disconnect l = record {
  life = record l { state = disconnected; connection = none };
  outcome = returned;
  states = disconnected ∷ [];
  requests = [];
}

-- `send_pending_subscriptions`, each request by `safe_send_message`.
abbrev pub pending_requests : Life → Client → List Request
pending_requests l c = if is_open l.connection then send_pending_subscriptions c else []

-- What `run` and `run_async` do first: connect if need be, and send the requests.
unfoldable pub prepare : Settings → Client → Life → Attempt → Done
prepare s c l ok =
    let d = if is_connected l then returning l else connect l ok in
    if s.offline_mode then returning l else record d { requests = pending_requests d.life c }

abbrev pub terminating : Done → Done
terminating d = record d { outcome = terminated }

-- The threads, with `with_dispatcher` for `run_async`.
unfoldable pub launch : Settings → Bool → Done → Done
launch s with_dispatcher d =
    let l = record d.life { running = true; stop_requested = false } in
    let started = if s.offline_mode then l else record l { io_thread = true } in
    if not s.offline_mode && l.io_thread
    then terminating d
    else if not (s.use_queue && with_dispatcher)
    then record d { life = started }
    else if l.dispatcher_thread
    then terminating d
    else record d { life = record started { dispatcher_thread = true } }

-- An exception of `connect` leaves `run` and `run_async`.
abbrev pub launch_after : Settings → Bool → Outcome → Done → Done
launch_after s with_dispatcher returned d = launch s with_dispatcher d
launch_after s with_dispatcher _ d = record d { requests = [] }

unfoldable pub run_async : Settings → Client → Life → Attempt → Done
run_async s c l ok =
    let d = prepare s c l ok in if l.running then returning l else launch_after s true d.outcome d

-- The end of `run`: the loops have ended, and the I/O thread is joined.
abbrev pub finish_run : Settings → Left → Outcome → Done → Done
finish_run s left returned d =
    let l = record d.life { running = false; io_thread = false } in
    if s.use_queue || not s.offline_mode
    then record d {
      life = record l { state = left.state; connection = left.connection; stop_requested = true };
    }
    else record d { life = l }
finish_run s left _ d = d

unfoldable pub run : Settings → Client → Life → Attempt → Left → Done
run s c l ok left =
    let d = prepare s c l ok in
    let launched = launch_after s false d.outcome d in
    if l.running then returning l else finish_run s left launched.outcome launched

unfoldable pub stop : Settings → Life → Done
stop s l =
    if not l.running
    then returning l
    else returning (record l {
      running = false;
      stop_requested = true;
      connection = closed l.connection;
      io_thread = false;
      dispatcher_thread = if s.use_queue then false else l.dispatcher_thread;
    })
