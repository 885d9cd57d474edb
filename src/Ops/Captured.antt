-- ===== src/Ops/Captured.antt =====
-- A screenshot from the executor to the server.
use one_autojs.Base.{
  ℕ, ◌≤◌, ◌≡◌, refl, arith, String, Bool, true, not, ◌||◌, List, Option, some, Json, obj, get, of_ℕ,
  number_lt, number_le, number_eq, str_eq, eq_refl, length, Outcome, ok, throw, ap, subst,
  Bool-cases, inl, inr, if_true, if_false,
}
use one_autojs.Ops.{DeviceOpsRequest, is_capture}
use one_autojs.Ops.Handle.{Finish, succeeded}
use one_autojs.Ops.Artifact.{
  DeviceOpsArtifact, artifact_header, encode_artifact_frame, parse_artifact_frame,
}
use one_autojs.Ops.Transfer.{IsSound, parse_artifact_frame-encode}
use one_autojs.Ops.Capture.{
  Socket, is_free, Executed, artifact, plain, raised, finish, sending, send_frame, after_execute,
  after_send, metadata, same_value, matches_header,
}

same_number : (n : ℕ) → number_eq (of_ℕ n) (of_ℕ n) ≡ true
unfolding number_eq
same_number n = ground arith

matches_header-metadata :
    (session_id request_id : String) (a : DeviceOpsArtifact)
    → matches_header (metadata a) (artifact_header session_id request_id a) ≡ true
unfolding matches_header metadata artifact_header get str_eq same_value
matches_header-metadata session_id request_id a = rw (
  eq_refl a.artifact_id,
  eq_refl a.sha256,
  same_number a.size_bytes,
  same_number a.width,
  same_number a.height,
  same_number a.captured_at,
)

-- The state in which a frame goes out.
pub record IsSent (request : DeviceOpsRequest) (active : Bool) (now : ℕ) (socket : Socket)
    : Type 0 where
  pub capture : is_capture request.operation ≡ true
  pub session : active ≡ true
  pub in_time : number_lt (of_ℕ now) request.expires_at ≡ true
  pub free : (socket.is_open ≡ true) × (socket.buffered ≤ 1048576)

send_frame-eq-sending :
    (o : Outcome (List ℕ)) (b : DeviceOpsArtifact) {frame : List ℕ} {a : DeviceOpsArtifact}
    → send_frame o b ≡ sending frame a
    → (o ≡ ok frame) × (b ≡ a)
send_frame-eq-sending (ok f) b h = (cc, cc)
send_frame-eq-sending (throw e) b h = cc

finish≢sending :
    {f : Finish} {frame : List ℕ} {a : DeviceOpsArtifact} → finish f ≡ sending frame a → ⊥
finish≢sending h = cc

after_execute-IsSent :
    (stringify : Json → List ℕ) (request : DeviceOpsRequest) (active : Bool) (now : ℕ)
    (socket : Socket) (answer : Executed) {frame : List ℕ} {a : DeviceOpsArtifact}
    → after_execute stringify request active now socket answer ≡ sending frame a
    → IsSent request active now socket
      × (answer ≡ artifact a)
      × (encode_artifact_frame stringify request.session_id request.request_id a ≡ ok frame)
unfolding after_execute number_le
after_execute-IsSent stringify request active now socket (plain details) h = cc
after_execute-IsSent stringify request active now socket (raised status code message) h = cc
after_execute-IsSent stringify request active now socket (artifact b) {frame} {a} h =
    elim (Bool-cases late) [
      | inl l ↦ absurd (finish≢sending (if_true _ _ l h))
      | inr early ↦ elim (Bool-cases (not (is_free socket))) [
        | inl full ↦ absurd (finish≢sending (if_true _ _ full (if_false _ _ early h)))
        | inr free ↦
            let e = send_frame-eq-sending _ b (if_false _ _ free (if_false _ _ early h)) in
            (
              record {
                capture = ground (arith, early);
                session = ground (arith, early);
                in_time = ground (arith, early);
                free = (ground (arith, free), ground (arith, free));
              },
              ap artifact e.1,
              subst
                  (λ x.
                    encode_artifact_frame stringify request.session_id request.request_id x
                    ≡ ok frame)
                  e.1 e.0,
            )
      ]
    ]
  where
    late : Bool
    late =
        not (is_capture request.operation) || not active || number_le request.expires_at (of_ℕ now)

-- If the artifact is well-formed, the JSON text of the frame's header has at least two bytes, and
-- parsing that text gives the header back, then a frame with the artifact goes out only for a capture,
-- in time, while the session is the manager's, on an open socket with at most 1 MiB waiting; the
-- server's parser accepts the frame; and the data of the response that follows meet the frame's header
-- in the server's test.
pub after_execute-matches :
    (parse_json : List ℕ → Option Json) (digest : List ℕ → String) (stringify : Json → List ℕ)
    (request : DeviceOpsRequest) (active : Bool) (now : ℕ) (socket : Socket) (answer : Executed)
    {frame : List ℕ} {a : DeviceOpsArtifact}
    → IsSound digest request.session_id request.request_id a
    → let header = artifact_header request.session_id request.request_id a in
      2 ≤ length (stringify (obj header))
      → parse_json (stringify (obj header)) ≡ some (obj header)
      → after_execute stringify request active now socket answer ≡ sending frame a
      → IsSent request active now socket
        × (parse_artifact_frame parse_json digest frame
            ≡ ok (record { header = header; content = a.content }))
        × (after_send true a ≡ succeeded (obj (metadata a)))
        × (matches_header (metadata a) header ≡ true)
unfolding after_send
after_execute-matches parse_json digest stringify request active now socket answer {frame} {a} v
      long back h =
    let (sent, same, encoded) = after_execute-IsSent stringify request active now socket answer h in
    (
      sent,
      parse_artifact_frame-encode parse_json digest stringify request.session_id request.request_id
          a v long back encoded,
      refl,
      matches_header-metadata request.session_id request.request_id a,
    )
