-- ===== src/Ops/Bounds.antt =====
-- The limits on requests in flight and on kept responses.
use one_autojs.Base.{
  ℕ, zero, suc, ◌+◌, ◌≤◌, ◌≡◌, refl, sym, subst, ap, ◌∙◌, arith, String, Bool, true, false, not,
  ◌||◌, List, [], ◌∷◌, Option, none, some, some_inj, Json, ltb, str_eq, length, find, put,
  get_elem?, erase_at, number_le, of_ℕ, Outcome, ok, throw, if◌then◌else◌, Bool-cases, inl, inr,
}
use one_autojs.Ops.{
  DeviceOpsOperation, DeviceOpsRequest, DeviceOpsResponse, is_mutating, is_capture,
}
use one_autojs.Ops.Parse.{parse_request}
use one_autojs.Ops.Session.{
  Running, ActiveSession, reduced, reset_idle, trim, open_socket, send, conclude,
}
use one_autojs.Ops.Handle.{
  at_limit, begin_operation, Finish, finished, end_operation, admit_request, answer, handle_parsed,
  handle_request, finish_at, finish_request,
}

abbrev pub bit : Bool → ℕ
bit true = 1
bit false = 0

abbrev pub count : (DeviceOpsOperation → Bool) → List Running → ℕ
count p [] = 0
count p (r ∷ rs) = bit (p r.request.operation) + count p rs

abbrev pub reads : DeviceOpsOperation → Bool
reads o = not (is_mutating o)

-- The counters are those of the running requests, at most one writes, four read, and one of these
-- takes a screenshot; at most 200 responses are kept.
pub record IsLimited (s : ActiveSession) : Type 0 where
  pub writing : count is_mutating s.running ≡ s.write_in_flight
  pub reading : count reads s.running ≡ s.read_in_flight
  pub capturing : count is_capture s.running ≡ bit s.screenshot_in_flight
  pub one_writer : s.write_in_flight ≤ 1
  pub four_readers : s.read_in_flight ≤ 4
  pub kept : length s.responses ≤ 200

count-erase_at :
    (p : DeviceOpsOperation → Bool) (rs : List Running) (i : ℕ) {r : Running}
    → get_elem? rs i ≡ some r
    → bit (p r.request.operation) + count p (erase_at rs i) ≡ count p rs
count-erase_at p [] i h = cc
count-erase_at p (x ∷ rs) zero h =
    subst
      (λ (y : Running).
        bit (p y.request.operation) + count p rs ≡ bit (p x.request.operation) + count p rs)
      (some_inj h) refl
count-erase_at p (x ∷ rs) (suc i) h = omega (arith, count-erase_at p rs i h)

length-put :
    (key : String) (r : DeviceOpsResponse) (m : List (String × DeviceOpsResponse))
    → length (put key r m) ≤ suc (length m)
unfolding put
length-put key r [] = omega arith
length-put key r ((k, v) ∷ m) = elim (Bool-cases (str_eq k key)) [
  | inl h ↦ rw h (omega arith)
  | inr h ↦ rw h (omega (arith, length-put key r m))
]

length-trim : (m : List (String × DeviceOpsResponse)) → length m ≤ 201 → length (trim m) ≤ 200
unfolding trim
length-trim [] h = omega arith
length-trim (e ∷ m) h = elim (Bool-cases (ltb 200 (length (e ∷ m)))) [
  | inl many ↦ rw many (omega arith)
  | inr few ↦ rw few (ground arith)
]

-- Only the fields that the limits are about matter.
pub IsLimited-of :
    {s t : ActiveSession}
    → t.running ≡ s.running
    → t.write_in_flight ≡ s.write_in_flight
    → t.read_in_flight ≡ s.read_in_flight
    → t.screenshot_in_flight ≡ s.screenshot_in_flight
    → length t.responses ≤ 200
    → IsLimited s
    → IsLimited t
IsLimited-of {s} {t} a b c d e v = record {
  writing = ap (count is_mutating) a ∙ v.writing ∙ sym b;
  reading = ap (count reads) a ∙ v.reading ∙ sym c;
  capturing = ap (count is_capture) a ∙ v.capturing ∙ ap bit (sym d);
  one_writer = subst (λ n. n ≤ 1) (sym b) v.one_writer;
  four_readers = subst (λ n. n ≤ 4) (sym c) v.four_readers;
  kept = e;
}

module _ (frame_bytes : DeviceOpsResponse → ℕ) where
  pub send-IsLimited :
      (r : DeviceOpsResponse) (s : ActiveSession) → IsLimited s → IsLimited (send frame_bytes r s)
  unfolding send
  send-IsLimited r s v = guarded (not s.is_open || s.closed)
    where
      guarded :
          (b : Bool)
          → IsLimited (
              if b then s else record s {
                sent = (if ltb 65536 (frame_bytes r) then reduced r else r) ∷ s.sent;
              })
      guarded true = v
      guarded false = IsLimited-of refl refl refl refl v.kept v

  pub conclude-IsLimited :
      (r : DeviceOpsResponse) (s : ActiveSession)
      → IsLimited s
      → IsLimited (conclude frame_bytes r s)
  unfolding conclude
  conclude-IsLimited r s v =
      let bound =
        length-trim (put r.request_id r s.responses)
          (omega (arith, length-put r.request_id r s.responses, v.kept)) in
      let kept : ActiveSession = record s { responses = trim (put r.request_id r s.responses) } in
      send-IsLimited r kept (IsLimited-of {t = kept} refl refl refl refl bound v)

begin_operation-IsLimited :
    (now : ℕ) (request : DeviceOpsRequest) (s : ActiveSession)
    → at_limit request.operation s ≡ false
    → IsLimited s
    → IsLimited (begin_operation now request s)
unfolding begin_operation at_limit
begin_operation-IsLimited now request s h v = record {
  writing = ground (arith, v.writing);
  reading = ground (arith, v.reading);
  capturing = ground (arith, v.capturing);
  one_writer = ground (arith, v.one_writer);
  four_readers = ground (arith, v.four_readers);
  kept = v.kept;
}

end_operation-IsLimited :
    (i : ℕ) (r : Running) (s : ActiveSession)
    → get_elem? s.running i ≡ some r
    → IsLimited s
    → IsLimited (end_operation r (erase_at s.running i) s)
unfolding end_operation
end_operation-IsLimited i r s at v = record {
  writing = ground (arith, v.writing, count-erase_at is_mutating s.running i at);
  reading = ground (arith, v.reading, count-erase_at reads s.running i at);
  capturing = ground (arith, v.capturing, count-erase_at is_capture s.running i at);
  one_writer = ground (arith, v.one_writer);
  four_readers = ground (arith, v.four_readers);
  kept = v.kept;
}

pub open_socket-IsLimited :
    (now : ℕ) (s : ActiveSession) → IsLimited s → IsLimited (open_socket now s)
open_socket-IsLimited now s v = guarded s.closed
  where
    guarded :
        (b : Bool)
        → IsLimited (
            if b
            then s
            else record s { is_open = true; connected_at = some now; last_activity_at = now })
    guarded true = v
    guarded false = IsLimited-of {s = s} refl refl refl refl v.kept v

module _ (frame_bytes : DeviceOpsResponse → ℕ) where
  admit_request-IsLimited :
      (blocked : Bool) (now : ℕ) (request : DeviceOpsRequest) (s : ActiveSession)
      → IsLimited s
      → IsLimited (admit_request frame_bytes blocked now request s)
  unfolding admit_request
  admit_request-IsLimited blocked now request s v =
      elim (Bool-cases (number_le request.expires_at (of_ℕ now))) [
        | inl late ↦ rw late (conclude-IsLimited frame_bytes _ s v)
        | inr timely ↦ rw timely (elim (Bool-cases blocked) [
          | inl h ↦ rw h (conclude-IsLimited frame_bytes _ s v)
          | inr h ↦ rw h (elim (Bool-cases (at_limit request.operation s)) [
            | inl full ↦ rw full (conclude-IsLimited frame_bytes _ s v)
            | inr room ↦ rw room (begin_operation-IsLimited now request s room v)
          ])
        ])
      ]

  pub handle_request-IsLimited :
      (blocked : Bool) (now : ℕ) (raw : Json) (s : ActiveSession)
      → IsLimited s
      → IsLimited (handle_request frame_bytes blocked now raw s)
  unfolding handle_request
  handle_request-IsLimited blocked now raw s v = parsed (parse_request raw s.command.session_id)
    where
      active : ActiveSession
      active = record s { last_activity_at = now }

      answered :
          (request : DeviceOpsRequest) (o : Option DeviceOpsResponse)
          → IsLimited (answer frame_bytes blocked now request o (reset_idle now s))
      answered request (some duplicate) =
          send-IsLimited frame_bytes duplicate (reset_idle now s)
            (IsLimited-of {t = reset_idle now s} refl refl refl refl v.kept v)
      answered request none =
          admit_request-IsLimited blocked now request (reset_idle now s)
            (IsLimited-of {t = reset_idle now s} refl refl refl refl v.kept v)

      parsed :
          (o : Outcome DeviceOpsRequest) → IsLimited (handle_parsed frame_bytes blocked now o s)
      parsed (throw message) =
          IsLimited-of {t = record s { is_open = false }} refl refl refl refl v.kept v
      parsed (ok request) = answered request (find request.request_id s.responses)

  pub finish_request-IsLimited :
      (now i : ℕ) (outcome : Finish) (s : ActiveSession)
      → IsLimited s
      → IsLimited (finish_request frame_bytes now i outcome s)
  unfolding finish_request
  finish_request-IsLimited now i outcome s v = at (get_elem? s.running i) refl
    where
      at :
          (o : Option Running)
          → get_elem? s.running i ≡ o
          → IsLimited (finish_at frame_bytes now i outcome o s)
      at none found = v
      at (some r) found =
          conclude-IsLimited frame_bytes (finished now r outcome)
            (end_operation r (erase_at s.running i) s) (end_operation-IsLimited i r s found v)
