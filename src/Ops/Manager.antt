-- ===== src/Ops/Manager.antt =====
-- The session manager of mobile/src/ops-session.ts: opening, reconnecting and closing.
use one_autojs.Base.{
  ℕ, suc, ◌+◌, String, Bool, false, not, ◌||◌, List, [], ◌∷◌, Option, none, some, Json, str_eq,
  ◌==◌, Number, of_ℕ, number_le, number_lt, number_min, Outcome, ok, throw, failing, if◌then◌else◌,
}
use one_autojs.Ops.{DeviceOpsOpenSessionCommand}
use one_autojs.Ops.Parse.{Url, parse_open_session}
use one_autojs.Ops.Session.{ActiveSession, shut_session, drop_socket}

-- `DeviceOpsSessionEvent`'s status, and the event without the fields that are the same in all.
pub data EventStatus : Type 0 where
  connecting connected closed rejected : EventStatus

pub record Event : Type 0 where
  pub session_id : String
  pub status : EventStatus
  pub code : String
  pub message : String
  pub timestamp : ℕ

-- `DeviceOpsSessionManager`; `events` lists the published events, the latest first, and
-- `reconnecting` the sessions whose reconnection timer runs.
pub record DeviceOpsSessionManager : Type 0 where
  pub active : Option ActiveSession
  pub events : List Event
  pub reconnecting : List ℕ
  pub next_identity : ℕ

-- The manager's options, as they are when a handler runs; `origin_of` is `new URL(…).origin`.
pub record Options : Type 0 where
  pub device_id : String
  pub allowed_ws_origins : List String
  pub deployment_blocked : Bool
  pub remote_control_blocked : Bool

abbrev pub includes_origin : String → List String → Bool
includes_origin origin [] = false
includes_origin origin (o ∷ os) = str_eq o origin || includes_origin origin os

-- `isActive`
abbrev pub is_active : Option ActiveSession → Bool
is_active none = false
is_active (some s) = not s.closed

abbrev pub event :
    ℕ
    → DeviceOpsOpenSessionCommand
    → EventStatus
    → String
    → String
    → DeviceOpsSessionManager
    → DeviceOpsSessionManager
event now command status code message m = record m {
  events =
      record {
        session_id = command.session_id;
        status = status;
        code = code;
        message = message;
        timestamp = now;
      }
      ∷ m.events;
}

-- A code and a message.
pub record Reason : Type 0 where
  pub code : String
  pub message : String

-- The tests of `handleOpenCommand` before it looks at the active session.
unfoldable pub rejection : Options → ℕ → String → DeviceOpsOpenSessionCommand → Option Reason
unfolding number_le
rejection options now origin command =
    failing (not (str_eq command.device_id options.device_id))
      (record { code = "DEVICE_MISMATCH"; message = "Operations session targets another device" })
      (failing (number_le command.expires_at (of_ℕ now))
        (record {
          code = "OPS_SESSION_EXPIRED";
          message = "Operations session expired before processing";
        })
        (failing options.deployment_blocked
          (record { code = "DEPLOYMENT_DRAINING"; message = "Device deployment is draining" })
          (failing options.remote_control_blocked
            (record { code = "REMOTE_SESSION_ACTIVE"; message = "Remote screen control is active" })
            (failing (not (includes_origin origin options.allowed_ws_origins))
              (record {
                code = "OPS_ORIGIN_NOT_ALLOWED";
                message = "Operations WSS origin is not allowlisted";
              })
              none))))

-- The new session of `handleOpenCommand`.
abbrev pub new_session : ℕ → ℕ → DeviceOpsOpenSessionCommand → ActiveSession
new_session identity now command = record {
  identity = identity;
  command = command;
  is_open = false;
  closed = false;
  connected_at = none;
  last_activity_at = now;
  read_in_flight = 0;
  write_in_flight = 0;
  screenshot_in_flight = false;
  responses = [];
  sent = [];
  running = [];
}

abbrev pub open_new :
    ℕ → DeviceOpsOpenSessionCommand → DeviceOpsSessionManager → DeviceOpsSessionManager
open_new now command m =
    event now command connecting "OPS_WSS_CONNECTING" "Device is connecting to operations session"
      (record m {
        active = some (new_session m.next_identity now command);
        next_identity = suc m.next_identity;
      })

-- The tests on the active session: the same session is open already, or another is.
abbrev pub open_beside :
    ℕ
    → DeviceOpsOpenSessionCommand
    → Option ActiveSession
    → DeviceOpsSessionManager
    → DeviceOpsSessionManager
open_beside now command none m = open_new now command m
open_beside now command (some s) m =
    if s.closed
    then open_new now command m
    else if str_eq s.command.session_id command.session_id
    then m
    else event now command rejected "OPS_SESSION_BUSY" "Another operations session is active" m

abbrev pub open_unless :
    ℕ
    → DeviceOpsOpenSessionCommand
    → Option Reason
    → DeviceOpsSessionManager
    → DeviceOpsSessionManager
open_unless now command (some r) m = event now command rejected r.code r.message m
open_unless now command none m = open_beside now command m.active m

module _ (parse_url : String → Outcome Url) (origin_of : String → String) (options : Options) where
  abbrev pub open_parsed :
      ℕ → Outcome DeviceOpsOpenSessionCommand → DeviceOpsSessionManager → DeviceOpsSessionManager
  open_parsed now (throw message) m = m
  open_parsed now (ok command) m =
      open_unless now command (rejection options now (origin_of command.ws_url) command) m

  -- `handleOpenCommand`, up to the start of the connection.
  unfoldable pub handle_open_command : ℕ → Json → DeviceOpsSessionManager → DeviceOpsSessionManager
  unfolding parse_open_session rejection
  handle_open_command now payload m = open_parsed now (parse_open_session parse_url payload) m

-- `close`, up to the `await` of its event.
abbrev pub close_with :
    ℕ → String → String → Option ActiveSession → DeviceOpsSessionManager → DeviceOpsSessionManager
close_with now code message none m = m
close_with now code message (some s) m =
    if s.closed
    then m
    else event now s.command closed code message (record m { active = some (shut_session s) })

unfoldable pub close : ℕ → String → String → DeviceOpsSessionManager → DeviceOpsSessionManager
close now code message m = close_with now code message m.active m

-- `if (this.active === session) this.active = null`
abbrev pub forget : ℕ → Option ActiveSession → Option ActiveSession
forget identity none = none
forget identity (some s) = if s.identity == identity then none else some s

unfoldable pub finish_close : ℕ → DeviceOpsSessionManager → DeviceOpsSessionManager
finish_close identity m = record m { active = forget identity m.active }

-- `session.connectedAt || this.now()`
abbrev connected_or : ℕ → Option ℕ → ℕ
connected_or now none = now
connected_or now (some at) = if at == 0 then now else at

-- The time until which a lost connection is taken up again.
unfoldable pub reconnect_deadline : ℕ → ActiveSession → Number
unfolding number_lt
reconnect_deadline now s =
    number_min s.command.expires_at (of_ℕ (connected_or now s.connected_at + 30000))

abbrev pub lose : ℕ → Option ActiveSession → DeviceOpsSessionManager → DeviceOpsSessionManager
lose now none m = m
lose now (some s) m =
    if s.closed
    then m
    else let m' = record m { active = some (drop_socket s) } in
      if number_lt (of_ℕ (now + 1000)) (reconnect_deadline now s)
      then record m' { reconnecting = s.identity ∷ m'.reconnecting }
      else close_with now "OPS_WSS_DISCONNECTED" "Operations WSS connection ended" m'.active m'

abbrev if_same : ℕ → Option ActiveSession → Option ActiveSession
if_same identity none = none
if_same identity (some s) = if s.identity == identity then some s else none

-- The socket's `close` event: the session reconnects in a second, or is closed.
unfoldable pub lose_connection : ℕ → ℕ → DeviceOpsSessionManager → DeviceOpsSessionManager
unfolding reconnect_deadline number_lt
lose_connection now identity m = lose now (if_same identity m.active) m
