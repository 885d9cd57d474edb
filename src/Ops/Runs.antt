-- ===== src/Ops/Runs.antt =====
-- Runs of one session, and its limits over them.
use one_autojs.Base.{ℕ, ◌≡◌, refl, subst, Bool, Json}
use one_autojs.Ops.{DeviceOpsResponse}
use one_autojs.Ops.Session.{ActiveSession, open_socket, drop_socket, shut_session}
use one_autojs.Ops.Handle.{Finish, handle_request, finish_request}
use one_autojs.Ops.Bounds.{
  IsLimited, IsLimited-of, open_socket-IsLimited, handle_request-IsLimited,
  finish_request-IsLimited,
}

module _ (frame_bytes : DeviceOpsResponse → ℕ) where
  -- A turn of the event loop on one session: a frame arrives, an operation finishes, or the socket
  -- opens, closes or is closed.
  pub data SessionStep (s t : ActiveSession) : Type 0 where
    received :
        (blocked : Bool) (now : ℕ) (raw : Json)
        → handle_request frame_bytes blocked now raw s ≡ t
        → SessionStep s t
    ended :
        (now i : ℕ) (outcome : Finish)
        → finish_request frame_bytes now i outcome s ≡ t
        → SessionStep s t
    opened : (now : ℕ) → open_socket now s ≡ t → SessionStep s t
    dropped : drop_socket s ≡ t → SessionStep s t
    shut : shut_session s ≡ t → SessionStep s t

  pub data SessionRun (s : ActiveSession) : ActiveSession → Type 0 where
    start : SessionRun s s
    step : {t u : ActiveSession} → SessionRun s t → SessionStep t u → SessionRun s u

  SessionStep-IsLimited : {s t : ActiveSession} → SessionStep s t → IsLimited s → IsLimited t
  SessionStep-IsLimited {s} (received blocked now raw e) v =
      subst IsLimited e (handle_request-IsLimited frame_bytes blocked now raw s v)
  SessionStep-IsLimited {s} (ended now i outcome e) v =
      subst IsLimited e (finish_request-IsLimited frame_bytes now i outcome s v)
  SessionStep-IsLimited {s} (opened now e) v = subst IsLimited e (open_socket-IsLimited now s v)
  SessionStep-IsLimited {s} (dropped e) v =
      subst IsLimited e (IsLimited-of {t = drop_socket s} refl refl refl refl v.kept v)
  SessionStep-IsLimited {s} (shut e) v =
      subst IsLimited e (IsLimited-of {t = shut_session s} refl refl refl refl v.kept v)

  -- Over any run of a session that starts within its limits, the counters are those of the requests
  -- under way, at most one of which changes the device, at most four only read and at most one takes
  -- a screenshot; and at most 200 responses are kept.
  pub SessionRun-IsLimited : {s t : ActiveSession} → IsLimited s → SessionRun s t → IsLimited t
  SessionRun-IsLimited v start = v
  SessionRun-IsLimited v (step run last) = SessionStep-IsLimited last (SessionRun-IsLimited v run)
