-- ===== src/Ops/Session.antt =====
-- A session of the maintenance channel: `ActiveSession` of mobile/src/ops-session.ts.
use Prim.Native.Nat.{◌-◌}
use one_autojs.Base.{
  ℕ, String, Bool, true, false, not, ◌||◌, List, [], ◌∷◌, Option, some, Json, obj, end, ltb, length,
  put, if◌then◌else◌,
}
use one_autojs.Ops.{
  DeviceOpsOpenSessionCommand, DeviceOpsRequest, DeviceOpsResponse, DeviceOpsResponseStatus,
  failure,
}

-- A request whose operation is under way, with the time at which it began.
pub record Running : Type 0 where
  pub request : DeviceOpsRequest
  pub started_at : ℕ

-- `ActiveSession`, less its timers. `is_open` says that the socket's state is OPEN; `sent` lists the
-- responses that went out, the latest first; `running` lists the requests that wait for the executor,
-- which the source keeps as suspended calls of `handleRequest`.
pub record ActiveSession : Type 0 where
  pub identity : ℕ
  pub command : DeviceOpsOpenSessionCommand
  pub is_open : Bool
  pub closed : Bool
  pub connected_at : Option ℕ
  pub last_activity_at : ℕ
  pub read_in_flight : ℕ
  pub write_in_flight : ℕ
  pub screenshot_in_flight : Bool
  pub responses : List (String × DeviceOpsResponse)
  pub sent : List DeviceOpsResponse
  pub running : List Running

-- `resetIdle`, without the timer.
abbrev pub reset_idle : ℕ → ActiveSession → ActiveSession
reset_idle now s = record s { last_activity_at = now }

-- The socket's `open` event; that of a closed session's socket is closed again.
abbrev pub open_socket : ℕ → ActiveSession → ActiveSession
open_socket now s =
    if s.closed
    then s
    else record s { is_open = true; connected_at = some now; last_activity_at = now }

-- The socket is closed, by the other side or by `socket.close`.
abbrev pub drop_socket : ActiveSession → ActiveSession
drop_socket s = record s { is_open = false }

-- What `close` does to the session.
abbrev pub shut_session : ActiveSession → ActiveSession
shut_session s = record s { closed = true; is_open = false }

-- The reduced response of `send`.
abbrev pub reduced : DeviceOpsResponse → DeviceOpsResponse
reduced r = record r {
  status = failure;
  code = "OPS_RESPONSE_TOO_LARGE";
  message = "Operation result exceeded the 64 KiB frame limit";
  details = obj end;
}

-- `response`. The time cannot run backwards here, so the duration needs no `Math.max`.
abbrev pub response :
    ℕ → DeviceOpsRequest → ℕ → DeviceOpsResponseStatus → String → String → Json → DeviceOpsResponse
response now request started_at status code message details = record {
  session_id = request.session_id;
  request_id = request.request_id;
  operation = request.operation;
  status = status;
  code = code;
  message = message;
  details = details;
  started_at = started_at;
  finished_at = now;
  duration_ms = now - started_at;
}

-- The oldest entry of the map goes if there are more than 200.
abbrev pub drop_first : List (String × DeviceOpsResponse) → List (String × DeviceOpsResponse)
drop_first [] = []
drop_first (e ∷ es) = es

unfoldable pub trim : List (String × DeviceOpsResponse) → List (String × DeviceOpsResponse)
trim responses = if ltb 200 (length responses) then drop_first responses else responses

module _ (frame_bytes : DeviceOpsResponse → ℕ) where
  -- `send`; `frame_bytes` is the length of a response's JSON text.
  unfoldable pub send : DeviceOpsResponse → ActiveSession → ActiveSession
  send r s =
      if not s.is_open || s.closed
      then s
      else record s { sent = (if ltb 65536 (frame_bytes r) then reduced r else r) ∷ s.sent }

  -- The end of `handleRequest`: the response is kept for a repetition of the request, and sent.
  unfoldable pub conclude : DeviceOpsResponse → ActiveSession → ActiveSession
  unfolding send trim put
  conclude r s = send r (record s { responses = trim (put r.request_id r s.responses) })
