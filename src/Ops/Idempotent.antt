-- ===== src/Ops/Idempotent.antt =====
-- Repeated requests in `handleRequest` of mobile/src/ops-session.ts.
use one_autojs.Base.{
  ℕ, suc, ◌≤◌, ◌≡◌, refl, sym, subst, ap, ◌∙◌, arith, String, Bool, true, false, not, ◌||◌, List,
  [], ◌∷◌, Option, none, some, Json, ltb, length, str_eq, eq_refl, find, put, find-put_self,
  get_elem?, erase_at, ok, if◌then◌else◌, Bool-cases, inl, inr,
}
use one_autojs.Ops.{DeviceOpsRequest, DeviceOpsResponse}
use one_autojs.Ops.Parse.{parse_request}
use one_autojs.Ops.Session.{Running, ActiveSession, reduced, reset_idle, trim, send, conclude}
use one_autojs.Ops.Handle.{
  Finish, finished, succeeded, failed, end_operation, handle_parsed, answer, handle_request,
  finish_at, finish_request,
}
use one_autojs.Ops.Bounds.{IsLimited}

-- The newest response survives the eviction of the oldest.
find-trim-put :
    (key : String) (r : DeviceOpsResponse) (m : List (String × DeviceOpsResponse))
    → length m ≤ 200
    → find key (trim (put key r m)) ≡ some r
unfolding find put trim
find-trim-put key r [] h = rw (eq_refl key) refl
find-trim-put key r ((k, v) ∷ m) h = elim (Bool-cases (str_eq k key)) [
  | inl same ↦
      let few : ltb 200 (suc (length m)) ≡ false = ground arith in rw (same, few) (rw same refl)
  | inr other ↦ elim (Bool-cases (ltb 200 (suc (length (put key r m))))) [
    | inl many ↦ rw (other, many) (find-put_self key r m)
    | inr few ↦ rw (other, few) (rw other (find-put_self key r m))
  ]
]

-- The frame that `send` writes for a response.
abbrev pub frame : (DeviceOpsResponse → ℕ) → DeviceOpsResponse → DeviceOpsResponse
frame frame_bytes r = if ltb 65536 (frame_bytes r) then reduced r else r

finished-request_id :
    (now : ℕ) (r : Running) (outcome : Finish)
    → (finished now r outcome).request_id ≡ r.request.request_id
finished-request_id now r (succeeded details) = refl
finished-request_id now r (failed status code message) = refl

module _ (frame_bytes : DeviceOpsResponse → ℕ) where
  -- A repetition starts nothing and keeps what is kept.
  pub record IsRepeated (r : DeviceOpsResponse) (s t : ActiveSession) : Type 0 where
    pub running : t.running ≡ s.running
    pub responses : t.responses ≡ s.responses
    pub sent : (s.is_open ≡ true) → (s.closed ≡ false) → t.sent ≡ frame frame_bytes r ∷ s.sent

  send-IsRepeated :
      (now : ℕ) (r : DeviceOpsResponse) (s : ActiveSession)
      → IsRepeated r s (send frame_bytes r (reset_idle now s))
  unfolding send
  send-IsRepeated now r s = guarded (not s.is_open || s.closed) refl
    where
      guarded :
          (b : Bool)
          → (not s.is_open || s.closed) ≡ b
          → IsRepeated r s (
              if b
              then reset_idle now s
              else record (reset_idle now s) { sent = frame frame_bytes r ∷ s.sent })
      guarded true silent = record {
        running = refl;
        responses = refl;
        sent = λ h k. absurd (ground arith);
      }
      guarded false heard = record { running = refl; responses = refl; sent = λ h k. refl }

  send-responses :
      (r : DeviceOpsResponse) (s : ActiveSession) → (send frame_bytes r s).responses ≡ s.responses
  unfolding send
  send-responses r s = guarded (not s.is_open || s.closed)
    where
      guarded :
          (b : Bool)
          → (if b then s else record s { sent = frame frame_bytes r ∷ s.sent }).responses
            ≡ s.responses
      guarded true = refl
      guarded false = refl

  send-command :
      (r : DeviceOpsResponse) (s : ActiveSession) → (send frame_bytes r s).command ≡ s.command
  unfolding send
  send-command r s = guarded (not s.is_open || s.closed)
    where
      guarded :
          (b : Bool)
          → (if b then s else record s { sent = frame frame_bytes r ∷ s.sent }).command ≡ s.command
      guarded true = refl
      guarded false = refl

  conclude-find :
      (r : DeviceOpsResponse) (s : ActiveSession)
      → length s.responses ≤ 200
      → find r.request_id (conclude frame_bytes r s).responses ≡ some r
  unfolding conclude
  conclude-find r s few =
      ap (find r.request_id)
        (send-responses r (record s { responses = trim (put r.request_id r s.responses) }))
      ∙ find-trim-put r.request_id r s.responses few

  finish_request-find :
      (now i : ℕ) (outcome : Finish) (s : ActiveSession) {r : Running}
      → get_elem? s.running i ≡ some r
      → IsLimited s
      → find r.request.request_id (finish_request frame_bytes now i outcome s).responses
        ≡ some (finished now r outcome)
  unfolding finish_request end_operation
  finish_request-find now i outcome s {r} at v =
      let e = end_operation r (erase_at s.running i) s in
      rw at (
        subst
          (λ id.
            find id (conclude frame_bytes (finished now r outcome) e).responses
            ≡ some (finished now r outcome))
          (finished-request_id now r outcome) (conclude-find (finished now r outcome) e v.kept))

  finish_request-command :
      (now i : ℕ) (outcome : Finish) (s : ActiveSession)
      → (finish_request frame_bytes now i outcome s).command ≡ s.command
  unfolding finish_request conclude end_operation
  finish_request-command now i outcome s = at (get_elem? s.running i)
    where
      at : (o : Option Running) → (finish_at frame_bytes now i outcome o s).command ≡ s.command
      at none = refl
      at (some r) =
          let done = finished now r outcome in
          let e = end_operation r (erase_at s.running i) s in
          send-command done (record e { responses = trim (put done.request_id done e.responses) })

  -- Right after an operation of a session within its limits has finished, a frame with a well-formed
  -- request of the same id starts no operation and changes no kept response; if the session is open,
  -- it is answered with the operation's response again, whether that succeeded or failed.
  pub finish_request-IsRepeated :
      (now later i : ℕ) (outcome : Finish) (blocked : Bool) (raw : Json)
      (request : DeviceOpsRequest) (s : ActiveSession) {r : Running}
      → IsLimited s
      → get_elem? s.running i ≡ some r
      → parse_request raw s.command.session_id ≡ ok request
      → request.request_id ≡ r.request.request_id
      → let t = finish_request frame_bytes now i outcome s in
        IsRepeated (finished now r outcome) t (handle_request frame_bytes blocked later raw t)
  unfolding handle_request
  finish_request-IsRepeated now later i outcome blocked raw request s {r} v at parsed same =
      let t = finish_request frame_bytes now i outcome s in
      let parsed' : parse_request raw t.command.session_id ≡ ok request =
        subst (λ c. parse_request raw (c.session_id) ≡ ok request)
          (sym (finish_request-command now i outcome s)) parsed in
      let found : find request.request_id t.responses ≡ some (finished now r outcome) =
        subst (λ id. find id t.responses ≡ some (finished now r outcome)) (sym same)
          (finish_request-find now i outcome s at v) in
      subst
        (λ o. IsRepeated (finished now r outcome) t (handle_parsed frame_bytes blocked later o t))
        (sym parsed')
        (subst
          (λ o.
            IsRepeated (finished now r outcome) t
              (answer frame_bytes blocked later request o (reset_idle later t)))
          (sym found) (send-IsRepeated later (finished now r outcome) t))
