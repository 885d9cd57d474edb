-- ===== src/Ops/Handle.antt =====
-- `handleRequest` of mobile/src/ops-session.ts. Its one `await` splits it in two.
use one_autojs.Base.{
  ℕ, ◌+◌, ◌-◌, String, Bool, false, not, ◌&&◌, ◌||◌, List, ◌∷◌, Option, none, some, Json, obj, end,
  leb, find, get_elem?, erase_at, of_ℕ, number_le, Outcome, ok, throw, if◌then◌else◌,
}
use one_autojs.Ops.{
  DeviceOpsOperation, DeviceOpsRequest, DeviceOpsResponse, DeviceOpsResponseStatus, success,
  timeout, rejected, is_mutating, is_capture,
}
use one_autojs.Ops.Parse.{parse_request}
use one_autojs.Ops.Session.{Running, ActiveSession, reset_idle, response, send, conclude}

-- The third test: the limits on requests in flight.
unfoldable pub at_limit : DeviceOpsOperation → ActiveSession → Bool
unfolding is_mutating
at_limit operation s =
    is_capture operation && s.screenshot_in_flight
    || is_mutating operation && leb 1 s.write_in_flight
    || not (is_mutating operation) && leb 4 s.read_in_flight

-- The counters go up, and the operation starts.
unfoldable pub begin_operation : ℕ → DeviceOpsRequest → ActiveSession → ActiveSession
begin_operation now request s =
    let writes = is_mutating request.operation in
    record s {
      write_in_flight = if writes then s.write_in_flight + 1 else s.write_in_flight;
      read_in_flight = if writes then s.read_in_flight else s.read_in_flight + 1;
      screenshot_in_flight = is_capture request.operation || s.screenshot_in_flight;
      running = record { request = request; started_at = now } ∷ s.running;
    }

-- What the race of the executor and the timer gives: data, or a DeviceOpsFailure.
pub data Finish : Type 0 where
  succeeded : Json → Finish
  failed : DeviceOpsResponseStatus → String → String → Finish

abbrev pub finished : ℕ → Running → Finish → DeviceOpsResponse
finished now r (succeeded details) =
    response now r.request r.started_at success "OPS_OPERATION_SUCCEEDED" "Operation completed"
      details
finished now r (failed status code message) =
    response now r.request r.started_at status code message (obj end)

-- The `finally` block: the counters go down.
unfoldable pub end_operation : Running → List Running → ActiveSession → ActiveSession
end_operation r rest s =
    let writes = is_mutating r.request.operation in
    record s {
      write_in_flight = if writes then s.write_in_flight - 1 else s.write_in_flight;
      read_in_flight = if writes then s.read_in_flight else s.read_in_flight - 1;
      screenshot_in_flight = not (is_capture r.request.operation) && s.screenshot_in_flight;
      running = rest;
    }

module _ (frame_bytes : DeviceOpsResponse → ℕ) where
  -- The chain of tests on a fresh request.
  unfoldable pub admit_request : Bool → ℕ → DeviceOpsRequest → ActiveSession → ActiveSession
  unfolding number_le at_limit begin_operation conclude
  admit_request blocked now request s =
      if number_le request.expires_at (of_ℕ now)
      then conclude frame_bytes
          (response now request now timeout "OPS_REQUEST_EXPIRED" "Operation request expired"
            (obj end))
          s
      else if blocked
      then conclude frame_bytes
          (response now request now rejected "DEPLOYMENT_DRAINING" "Device deployment is draining"
            (obj end))
          s
      else if at_limit request.operation s
      then conclude frame_bytes
          (response now request now rejected "OPS_CONCURRENCY_LIMIT"
            "Operations concurrency limit reached" (obj end))
          s
      else begin_operation now request s

  abbrev pub answer :
      Bool → ℕ → DeviceOpsRequest → Option DeviceOpsResponse → ActiveSession → ActiveSession
  answer blocked now request (some duplicate) s = send frame_bytes duplicate s
  answer blocked now request none s = admit_request blocked now request s

  abbrev pub handle_parsed : Bool → ℕ → Outcome DeviceOpsRequest → ActiveSession → ActiveSession
  handle_parsed blocked now (throw message) s = record s { is_open = false }
  handle_parsed blocked now (ok request) s =
      answer blocked now request (find request.request_id s.responses) (reset_idle now s)

  -- `handleRequest` up to its `await`: `blocked` is `isDeploymentBlocked()`.
  unfoldable pub handle_request : Bool → ℕ → Json → ActiveSession → ActiveSession
  unfolding parse_request find send admit_request
  handle_request blocked now raw s =
      handle_parsed blocked now (parse_request raw s.command.session_id) s

  abbrev pub finish_at : ℕ → ℕ → Finish → Option Running → ActiveSession → ActiveSession
  finish_at now i outcome none s = s
  finish_at now i outcome (some r) s =
      conclude frame_bytes (finished now r outcome) (end_operation r (erase_at s.running i) s)

  -- The rest of `handleRequest`, for one of the requests that wait.
  unfoldable pub finish_request : ℕ → ℕ → Finish → ActiveSession → ActiveSession
  unfolding conclude end_operation
  finish_request now i outcome s = finish_at now i outcome (get_elem? s.running i) s
