-- ===== src/Ops/Sound.antt =====
-- What the parsers of mobile/src/ops-protocol.ts guarantee.
use one_autojs.Base.{
  ◌≡◌, subst, String, Bool, true, Option, none, some, Json, Fields, get, as_record, as_string,
  number_lt, number_le, number_add, is_identifier, is_device_id, Outcome, ok, or_throw, >>=-eq-ok,
  require-eq-ok, or_throw-eq-ok, ok-injective, refl, Bool-cases, inl, inr, if◌then◌else◌,
}
use one_autojs.Ops.{DeviceOpsOpenSessionCommand, DeviceOpsRequest}
use one_autojs.Ops.Parse.{
  Url, checked, text_field, time_field, any_text, is_secure, is_bare, parse_open_session,
}

-- What the session manager relies on in an accepted command. `url` is what its text parsed to.
pub record IsOpenable (url : Url) (c : DeviceOpsOpenSessionCommand) : Type 0 where
  pub session_id : is_identifier c.session_id ≡ true
  pub device_id : is_device_id c.device_id ≡ true
  pub nonce : is_identifier c.nonce ≡ true
  pub ordered : number_lt c.issued_at c.expires_at ≡ true
  pub short : number_le c.expires_at (number_add c.issued_at 1800000) ≡ true
  pub endpoint : c.ws_url ≡ url.href
  pub secure : is_secure url ≡ true
  pub bare : is_bare url ≡ true

pub text_field-test :
    (test : String → Bool) (key : String) (value : Fields) (message : String) {s : String}
    → text_field test key value message ≡ ok s
    → test s ≡ true
unfolding text_field
text_field-test test key value message {s} h = of_checked (as_string (get key value)) h
  where
    of_checked :
        (o : Option String) {s : String} → or_throw (checked test o) message ≡ ok s → test s ≡ true
    of_checked none h = cc
    of_checked (some t) {s} h = elim (Bool-cases (test t)) [
      | inl fits ↦
          subst (λ x. test x ≡ true)
            (ok-injective
              (subst (λ b. or_throw (if b then some t else none) message ≡ ok s) fits h))
            fits
      | inr misfit ↦
          let failed = subst (λ b. or_throw (if b then some t else none) message ≡ ok s) misfit h in
          cc
    ]

-- An accepted command to open a session has well-formed ids, is valid for at most thirty minutes
-- after its issue, and names an endpoint that is WSS, or WS on the loopback interface, without
-- credentials, query or fragment.
pub parse_open_session-IsOpenable :
    (parse_url : String → Outcome Url) (payload : Json) {c : DeviceOpsOpenSessionCommand}
    → parse_open_session parse_url payload ≡ ok c
    → (text : String) × (url : Url) × (parse_url text ≡ ok url) × IsOpenable url c
unfolding parse_open_session
parse_open_session-IsOpenable parse_url payload h0 =
    let (value, _, h1) = or_throw-eq-ok (as_record payload) _ _ h0 in
    let (_, h2) = require-eq-ok _ _ _ h1 in
    let (session_id, a, h3) = >>=-eq-ok (text_field is_identifier "sessionId" value _) _ h2 in
    let (device_id, b, h4) = >>=-eq-ok (text_field is_device_id "deviceId" value _) _ h3 in
    let (nonce, d, h5) = >>=-eq-ok (text_field is_identifier "nonce" value _) _ h4 in
    let (ws_url, _, h6) = >>=-eq-ok (text_field any_text "wsUrl" value _) _ h5 in
    let (issued_at, _, h7) = >>=-eq-ok (time_field "issuedAt" value _) _ h6 in
    let (expires_at, _, h8) = >>=-eq-ok (time_field "expiresAt" value _) _ h7 in
    let (ordered, h9) = require-eq-ok (number_lt issued_at expires_at) _ _ h8 in
    let (short, h10) = require-eq-ok (number_le expires_at (number_add issued_at 1800000)) _ _ h9 in
    let (url, parsed, h11) = >>=-eq-ok (parse_url ws_url) _ h10 in
    let (secure, h12) = require-eq-ok (is_secure url) _ _ h11 in
    let (bare, h13) = require-eq-ok (is_bare url) _ _ h12 in
    (
      ws_url,
      url,
      parsed,
      subst (IsOpenable url) (ok-injective h13) (record {
        session_id = text_field-test is_identifier "sessionId" value _ a;
        device_id = text_field-test is_device_id "deviceId" value _ b;
        nonce = text_field-test is_identifier "nonce" value _ d;
        ordered = ordered;
        short = short;
        endpoint = refl;
        secure = secure;
        bare = bare;
      }),
    )

-- What holds of an accepted request frame.
pub record IsRequest (session_id : String) (r : DeviceOpsRequest) : Type 0 where
  pub same_session : r.session_id ≡ session_id
  pub request_id : is_identifier r.request_id ≡ true
  pub ordered : number_lt r.created_at r.expires_at ≡ true
  pub short : number_le r.expires_at (number_add r.created_at 15000) ≡ true
