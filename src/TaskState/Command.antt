-- ===== src/TaskState/Command.antt =====
-- `parseTaskControlCommand`, and what an accepted command guarantees.
use Prim.Native.String
use one_autojs.Base.{
  ℕ, arith, ◌+◌, ◌≡◌, subst, String, Bool, true, ◌&&◌, Option, none, some, Json, Fields, Number,
  of_ℕ, number_le, number_lt, number_add, is_safe_integer, get, as_record, as_string, as_number,
  is_number, is_string, is_identifier, Outcome, ok, ◌>>=◌, ◌>>◌, require, or_throw, if◌then◌else◌,
  >>=-eq-ok, require-eq-ok, or_throw-eq-ok, ok-injective,
}
use one_autojs.TaskState.{TaskControlCommand}

identifier_only : Option String → Option String
identifier_only none = none
identifier_only (some s) = if is_identifier s then some s else none

-- One round of the loop over `commandId` and `taskId`.
unfoldable pub identifier_field : String → Fields → Outcome String
unfolding identifier_only
identifier_field key value =
    or_throw (identifier_only (as_string (get key value))) (String.◌++◌ "Invalid " key)

safe_integer_only : Option Number → Option Number
safe_integer_only none = none
safe_integer_only (some n) = if is_safe_integer n then some n else none

unfoldable pub expiry_field : String → Fields → Outcome Number
unfolding safe_integer_only
expiry_field key value =
    or_throw (safe_integer_only (as_number (get key value))) "Invalid task control expiry"

unfoldable pub parse_task_control_command : Json → ℕ → Outcome TaskControlCommand
parse_task_control_command payload now = do
  value ← or_throw (as_record payload) "Unsupported task control command"
  require
      (is_number (of_ℕ 2) (get "protocolVersion" value) && is_string "CANCEL" (get "action" value))
      "Unsupported task control command"
  command_id ← identifier_field "commandId" value
  task_id ← identifier_field "taskId" value
  created_at ← expiry_field "createdAt" value
  expires_at ← expiry_field "expiresAt" value
  require
      (number_le created_at (of_ℕ (now + 30000))
        && number_lt created_at expires_at
        && number_le expires_at (number_add created_at 300000))
      "Invalid task control expiry"
  ok (record {
    command_id = command_id;
    task_id = task_id;
    created_at = created_at;
    expires_at = expires_at;
  })

-- What holds of an accepted command.
pub record IsTrusted (now : ℕ) (c : TaskControlCommand) : Type 0 where
  pub command_id : is_identifier c.command_id ≡ true
  pub task_id : is_identifier c.task_id ≡ true
  pub timely : number_le c.created_at (of_ℕ (now + 30000)) ≡ true
  pub ordered : number_lt c.created_at c.expires_at ≡ true
  pub short : number_le c.expires_at (number_add c.created_at 300000) ≡ true

identifier_field-is_identifier :
    (key : String) (value : Fields) {s : String}
    → identifier_field key value ≡ ok s
    → is_identifier s ≡ true
unfolding identifier_field
identifier_field-is_identifier key value {s} h = ground arith

and-eq-true : (a b c : Bool) → (a && b && c) ≡ true → (a ≡ true) × (b ≡ true) × (c ≡ true)
and-eq-true a b c h = ground arith

-- An accepted control command names a command and a task by well-formed ids, was created at most
-- thirty seconds ahead of the clock, and is valid for at most five minutes.
pub parse-IsTrusted :
    (payload : Json) (now : ℕ) {c : TaskControlCommand}
    → parse_task_control_command payload now ≡ ok c
    → IsTrusted now c
unfolding parse_task_control_command
parse-IsTrusted payload now h0 =
    let (value, _, h1) = or_throw-eq-ok (as_record payload) _ _ h0 in
    let (_, h2) = require-eq-ok _ _ _ h1 in
    let (command_id, c, h3) = >>=-eq-ok (identifier_field "commandId" value) _ h2 in
    let (task_id, t, h4) = >>=-eq-ok (identifier_field "taskId" value) _ h3 in
    let (created_at, _, h5) = >>=-eq-ok (expiry_field "createdAt" value) _ h4 in
    let (expires_at, _, h6) = >>=-eq-ok (expiry_field "expiresAt" value) _ h5 in
    let (bounds, h7) = require-eq-ok _ _ _ h6 in
    let (timely, ordered, short) = and-eq-true _ _ _ bounds in
    subst (IsTrusted now) (ok-injective h7) (record {
      command_id = identifier_field-is_identifier "commandId" value c;
      task_id = identifier_field-is_identifier "taskId" value t;
      timely = timely;
      ordered = ordered;
      short = short;
    })
