-- ===== src/Ops/Single.antt =====
-- `handleOpenCommand` and `close` of mobile/src/ops-session.ts.
use one_autojs.Base.{
  ℕ, ◌≡◌, refl, sym, subst, ◌⊎◌, arith, String, Bool, true, false, not, ◌∷◌, Option, none, some,
  Json, str_eq, eq_iff, of_ℕ, number_le, Outcome, ok, throw, failing-eq-none, if◌then◌else◌,
  Bool-cases, inl, inr,
}
use one_autojs.Ops.{DeviceOpsOpenSessionCommand}
use one_autojs.Ops.Parse.{Url, parse_open_session}
use one_autojs.Ops.Session.{ActiveSession}
use one_autojs.Ops.Manager.{
  connecting, rejected, Event, DeviceOpsSessionManager, Options, includes_origin, is_active, event,
  Reason, rejection, new_session, open_new, open_beside, open_unless, open_parsed,
  handle_open_command, close, close_with,
}

-- What the manager has checked of a command that opens a session.
pub record IsAccepted (options : Options) (now : ℕ) (origin : String)
    (c : DeviceOpsOpenSessionCommand) : Type 0 where
  pub device : c.device_id ≡ options.device_id
  pub alive : number_le c.expires_at (of_ℕ now) ≡ false
  pub undeployed : options.deployment_blocked ≡ false
  pub unobserved : options.remote_control_blocked ≡ false
  pub listed : includes_origin origin options.allowed_ws_origins ≡ true

false_of_not : {b : Bool} → not b ≡ false → b ≡ true
false_of_not {b} h = ground arith

rejection-IsAccepted :
    (options : Options) (now : ℕ) (origin : String) (c : DeviceOpsOpenSessionCommand)
    → rejection options now origin c ≡ none
    → IsAccepted options now origin c
unfolding rejection
rejection-IsAccepted options now origin c h0 =
    let (device, h1) = failing-eq-none (not (str_eq c.device_id options.device_id)) _ _ h0 in
    let (alive, h2) = failing-eq-none (number_le c.expires_at (of_ℕ now)) _ _ h1 in
    let (undeployed, h3) = failing-eq-none options.deployment_blocked _ _ h2 in
    let (unobserved, h4) = failing-eq-none options.remote_control_blocked _ _ h3 in
    let (listed, _) =
      failing-eq-none (not (includes_origin origin options.allowed_ws_origins)) _ _ h4 in
    record {
      device = (eq_iff c.device_id options.device_id).0 (false_of_not device);
      alive = alive;
      undeployed = undeployed;
      unobserved = unobserved;
      listed = false_of_not listed;
    }

-- One event answers the command: a new session connects, or a rejection leaves all as it is.
abbrev pub IsAnswered :
    Options
    → ℕ
    → String
    → DeviceOpsOpenSessionCommand
    → DeviceOpsSessionManager
    → DeviceOpsSessionManager
    → Type 0
IsAnswered options now origin c m m' =
    (e : Event) × (m'.events ≡ e ∷ m.events)
    × (e.session_id ≡ c.session_id)
    × (((e.status ≡ connecting)
          × (m'.active ≡ some (new_session m.next_identity now c))
          × IsAccepted options now origin c)
        ⊎ ((e.status ≡ rejected)
            × (m'.active ≡ m.active)
            × ((r : Reason) × (rejection options now origin c ≡ some r) × (e.code ≡ r.code))))

module _ (parse_url : String → Outcome Url) (origin_of : String → String) (options : Options) where
  open_beside_active :
      (now : ℕ) (c : DeviceOpsOpenSessionCommand) (o : Option ActiveSession)
      (m : DeviceOpsSessionManager)
      → is_active o ≡ true
      → (open_beside now c o m).active ≡ m.active
  open_beside_active now c none m h = cc
  open_beside_active now c (some s) m h =
      let up : s.closed ≡ false = ground arith in
      rw up (guarded (str_eq s.command.session_id c.session_id))
    where
      guarded :
          (b : Bool)
          → (if b
              then m
              else event now c rejected "OPS_SESSION_BUSY" "Another operations session is active"
                  m).active
            ≡ m.active
      guarded true = refl
      guarded false = refl

  -- While a session is active, no command replaces or changes it.
  pub handle_open_command-active :
      (now : ℕ) (payload : Json) (m : DeviceOpsSessionManager)
      → is_active m.active ≡ true
      → (handle_open_command parse_url origin_of options now payload m).active ≡ m.active
  unfolding handle_open_command
  handle_open_command-active now payload m h = parsed (parse_open_session parse_url payload)
    where
      judged :
          (c : DeviceOpsOpenSessionCommand) (o : Option Reason)
          → (open_unless now c o m).active ≡ m.active
      judged c (some r) = refl
      judged c none = open_beside_active now c m.active m h

      parsed :
          (o : Outcome DeviceOpsOpenSessionCommand)
          → (open_parsed parse_url origin_of options now o m).active ≡ m.active
      parsed (throw message) = refl
      parsed (ok c) = judged c (rejection options now (origin_of c.ws_url) c)

  -- Where no session is active, a command that the parser accepts opens a session exactly when it
  -- passes the manager's tests: then the session is the command's, new, and announced as connecting;
  -- else the manager keeps its state and announces one rejection to the command's session.
  pub handle_open_command_lem :
      (now : ℕ) (payload : Json) (c : DeviceOpsOpenSessionCommand) (m : DeviceOpsSessionManager)
      → is_active m.active ≡ false
      → parse_open_session parse_url payload ≡ ok c
      → IsAnswered options now
          (origin_of c.ws_url)
          c
          m
          (handle_open_command parse_url origin_of options now payload m)
  unfolding handle_open_command
  handle_open_command_lem now payload c m idle parsed =
      subst (λ o. Answer (open_parsed parse_url origin_of options now o m)) (sym parsed)
        (judged (rejection options now (origin_of c.ws_url) c) refl)
    where
      Answer : DeviceOpsSessionManager → Type 0
      Answer = IsAnswered options now (origin_of c.ws_url) c m

      opened : rejection options now (origin_of c.ws_url) c ≡ none → Answer (open_new now c m)
      opened fine = (
        _,
        refl,
        refl,
        inl (refl, refl, rejection-IsAccepted options now (origin_of c.ws_url) c fine),
      )

      beside :
          (o : Option ActiveSession)
          → is_active o ≡ false
          → rejection options now (origin_of c.ws_url) c ≡ none
          → Answer (open_beside now c o m)
      beside none h fine = opened fine
      beside (some s) h fine = let over : s.closed ≡ true = ground arith in rw over (opened fine)

      judged :
          (o : Option Reason)
          → rejection options now (origin_of c.ws_url) c ≡ o
          → Answer (open_unless now c o m)
      judged (some r) found = (_, refl, refl, inr (refl, refl, (r, found, refl)))
      judged none found = beside m.active idle found

-- Closing the active session a second time, whenever and for whatever reason, changes nothing, so
-- that its end is announced once.
pub close-close :
    (now later : ℕ) (code message code' message' : String) (m : DeviceOpsSessionManager)
    → close later code' message' (close now code message m) ≡ close now code message m
unfolding close
close-close now later code message code' message' m = again m.active refl
  where
    Twice : DeviceOpsSessionManager → Type 0
    Twice m' = close_with later code' message' m'.active m' ≡ m'

    unchanged : (o : Option ActiveSession) → m.active ≡ o → is_active o ≡ false → Twice m
    unchanged none e idle = subst (λ o. close_with later code' message' o m ≡ m) (sym e) refl
    unchanged (some s) e idle =
        let over : s.closed ≡ true = ground arith in
        subst (λ o. close_with later code' message' o m ≡ m) (sym e) (rw over refl)

    again : (o : Option ActiveSession) → m.active ≡ o → Twice (close_with now code message o m)
    again none e = unchanged none e refl
    again (some s) e = elim (Bool-cases s.closed) [
      | inl over ↦
          let idle : is_active (some s) ≡ false = ground arith in
          rw over (unchanged (some s) e idle)
      | inr up ↦ rw up refl
    ]
