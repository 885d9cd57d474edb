-- ===== src/Campaign/Resume.antt =====
-- `performKnownPrecommitResume` of pc/src/tiktok-campaign.ts, which `resumeKnownPrecommit` and
-- `continueKnownPrecommitAmbiguity` call: what it asks of the campaign's files, and what it writes.
-- Its checks of the request's texts, of times, of sealed snapshots and of the answers of inspected
-- tasks are given as one result, of which nothing is assumed.
use one_autojs.Base.{
  ℕ, ◌+◌, ◌≤◌, ◌≡◌, refl, arith, ap, subst, sym, String, Bool, true, false, not, ◌&&◌, ◌||◌, List,
  [], ◌∷◌, ◌++◌, Option, none, some, str_eq, length, Outcome, ok, throw, ◌>>=◌, ◌>>◌, require,
  or_throw, >>=-eq-ok, require-eq-ok, or_throw-eq-ok, ok-injective, Bool-cases, inl, inr,
  if◌then◌else◌, is_some,
}
use one_autojs.Campaign.{
  EntryState, dispatching, accepted, hold, CampaignEntry, Store, publish_action, CampaignRequest,
  Boundary,
}
use one_autojs.Campaign.Validate.{validate_campaign, creative_request}
use one_autojs.Campaign.Operations.{is_accepted, find_entry, find_creative, approves, verify_video}
use one_autojs.Campaign.Moves.{then_ok}

-- `CampaignResumeAttempt`, without its evidence; `is_continuation` is the schema version 2.
pub record ResumeAttempt : Type 0 where
  pub publication_id : String
  pub operator_action_id : String
  pub is_continuation : Bool
  pub state : EntryState
  pub task_id : Option String

abbrev is_hold : EntryState → Bool
is_hold hold = true
is_hold _ = false

abbrev is_dispatched : EntryState → Bool
is_dispatched accepted = true
is_dispatched _ = false

-- Every other publication is accepted.
unfoldable pub others_accepted : String → List CampaignEntry → Bool
others_accepted id [] = true
others_accepted id (e ∷ rest) =
    (str_eq e.publication_id id || is_accepted e.state) && others_accepted id rest

unfoldable pub has_action : String → List ResumeAttempt → Bool
has_action action [] = false
has_action action (a ∷ rest) = str_eq a.operator_action_id action || has_action action rest

-- The earlier attempts of the publication.
unfoldable pub attempts_of : String → List ResumeAttempt → List ResumeAttempt
attempts_of id [] = []
attempts_of id (a ∷ rest) =
    if str_eq a.publication_id id then a ∷ attempts_of id rest else attempts_of id rest

-- A resume is the first one; a continuation follows one resume that was delivered.
abbrev pub may_resume : Bool → List ResumeAttempt → Bool
may_resume false [] = true
may_resume true (a ∷ []) = not a.is_continuation && is_dispatched a.state && is_some a.task_id
may_resume _ _ = false

-- The entry that is held, with a task.
unfoldable pub held_entry : Option CampaignEntry → Option CampaignEntry
held_entry none = none
held_entry (some e) =
    if is_hold e.state && is_some e.task_id && not (is_some e.canonical_url) then some e else none

unfoldable pub new_attempt : Bool → String → String → ResumeAttempt
new_attempt continuation id action = record {
  publication_id = id;
  operator_action_id = action;
  is_continuation = continuation;
  state = dispatching;
  task_id = none;
}

-- Up to the first write of `resume-attempts.json`: what is on the disk then, and the request to
-- publish, if it can be made.
unfoldable pub begin_resume :
    Boundary
    → Store
    → List ResumeAttempt
    → Bool
    → String
    → String
    → Outcome (Unit {0})
    → Outcome (List ResumeAttempt × Outcome CampaignRequest)
unfolding new_attempt
begin_resume boundary store attempts continuation id action proofs = do
  validate_campaign boundary store.manifest
  same ← approves boundary store
  require same "Original approved campaign identity required"
  entry ←
      or_throw (held_entry (find_entry id store.ledger))
        "Only the original held publication can continue"
  creative ←
      or_throw (find_creative id store.manifest.creatives)
        "Only the original held publication can continue"
  require
      (str_eq entry.manifest_sha256 (boundary.digest store.manifest)
        && others_accepted id store.ledger)
      "Only the original held publication can continue"
  require (not (has_action action attempts)) "This explicit operator action already exists"
  require (may_resume continuation (attempts_of id attempts)) "A bounded resume already exists"
  proofs
  verify_video boundary creative
  ok (
    attempts ++ new_attempt continuation id action ∷ [],
    boundary.normalize (creative_request publish_action store.manifest creative),
  )

abbrev with_resume_receipt : Outcome String → ResumeAttempt → ResumeAttempt
with_resume_receipt (ok task_id) attempt = record attempt {
  state = accepted;
  task_id = some task_id;
}
with_resume_receipt (throw e) attempt = record attempt { state = hold }

-- After the transport: the attempt that was pushed, the last one, has its receipt, if that is a new
-- task, or is on hold.
unfoldable pub finish_resume : Outcome String → List ResumeAttempt → List ResumeAttempt
finish_resume receipt [] = []
finish_resume receipt (a ∷ []) = with_resume_receipt receipt a ∷ []
finish_resume receipt (a ∷ b ∷ rest) = a ∷ finish_resume receipt (b ∷ rest)

-- How often a publication was resumed.
abbrev pub resume_count : String → List ResumeAttempt → ℕ
resume_count id [] = 0
resume_count id (a ∷ rest) = (if str_eq a.publication_id id then 1 else 0) + resume_count id rest

with_resume_receipt-publication_id :
    (receipt : Outcome String) (a : ResumeAttempt)
    → (with_resume_receipt receipt a).publication_id ≡ a.publication_id
with_resume_receipt-publication_id (ok task_id) a = refl
with_resume_receipt-publication_id (throw e) a = refl

pub resume_count-finish :
    (id : String) (receipt : Outcome String) (attempts : List ResumeAttempt)
    → resume_count id (finish_resume receipt attempts) ≡ resume_count id attempts
unfolding finish_resume
resume_count-finish id receipt [] = refl
resume_count-finish id receipt (a ∷ []) = rw (with_resume_receipt-publication_id receipt a) refl
resume_count-finish id receipt (a ∷ b ∷ rest) =
    omega (arith, resume_count-finish id receipt (b ∷ rest))

pub resume_count-push :
    (id : String) (attempts : List ResumeAttempt) (a : ResumeAttempt)
    → resume_count id (attempts ++ a ∷ [])
      ≡ resume_count id attempts + (if str_eq a.publication_id id then 1 else 0)
resume_count-push id [] a = omega arith
resume_count-push id (b ∷ rest) a = omega (arith, resume_count-push id rest a)

resume_count-attempts_of :
    (id : String) (attempts : List ResumeAttempt)
    → length (attempts_of id attempts) ≡ resume_count id attempts
unfolding attempts_of
resume_count-attempts_of id [] = refl
resume_count-attempts_of id (a ∷ rest) = elim (Bool-cases (str_eq a.publication_id id)) [
  | inl same ↦ rw same (omega (arith, resume_count-attempts_of id rest))
  | inr other ↦ rw other (omega (arith, resume_count-attempts_of id rest))
]

may_resume-few :
    (continuation : Bool) (earlier : List ResumeAttempt)
    → may_resume continuation earlier ≡ true
    → length earlier ≤ 1
may_resume-few false [] h = omega arith
may_resume-few true (a ∷ []) h = omega arith
may_resume-few true [] h = cc
may_resume-few false (a ∷ rest) h = cc
may_resume-few true (a ∷ b ∷ rest) h = cc

-- A resume adds an attempt of a publication with one at most.
pub begin_resume-few :
    (b : Boundary) (store : Store) (attempts : List ResumeAttempt) (continuation : Bool)
    (id action : String) (proofs : Outcome (Unit {0})) {attempts' : List ResumeAttempt}
    {request : Outcome CampaignRequest}
    → begin_resume b store attempts continuation id action proofs ≡ ok (attempts', request)
    → (attempts' ≡ attempts ++ new_attempt continuation id action ∷ [])
      × (resume_count id attempts ≤ 1)
unfolding begin_resume
begin_resume-few b store attempts continuation id action proofs h0 =
    let (_, h1) = then_ok (validate_campaign b store.manifest) _ h0 in
    let (same, _, h2) = >>=-eq-ok (approves b store) _ h1 in
    let (_, h3) = require-eq-ok same _ _ h2 in
    let (entry, _, h4) = or_throw-eq-ok (held_entry (find_entry id store.ledger)) _ _ h3 in
    let (creative, _, h5) = or_throw-eq-ok (find_creative id store.manifest.creatives) _ _ h4 in
    let (_, h6) =
      require-eq-ok
        (str_eq entry.manifest_sha256 (b.digest store.manifest) && others_accepted id store.ledger)
        _ _ h5 in
    let (_, h7) = require-eq-ok (not (has_action action attempts)) _ _ h6 in
    let (may, h8) = require-eq-ok (may_resume continuation (attempts_of id attempts)) _ _ h7 in
    let (_, h9) = then_ok proofs _ h8 in
    let (_, h10) = then_ok (verify_video b creative) _ h9 in
    (
      ap (λ x. x.0) (sym (ok-injective h10)),
      subst (λ n. n ≤ 1) (resume_count-attempts_of id attempts)
          (may_resume-few continuation (attempts_of id attempts) may),
    )
