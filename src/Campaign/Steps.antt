-- ===== src/Campaign/Steps.antt =====
-- Runs of a campaign: its operations one after another, a process that stops in the middle of an
-- attempt, and an operator who edits the manifest.
use one_autojs.Base.{
  ℕ, ◌≡◌, codes, ap, subst, ◌∙◌, String, Bool, true, not, ◌&&◌, List, ◌∷◌, Option, none, some,
  some_inj, none≢some, if_true, if_false, str_eq, Outcome, ok, throw, >>=-eq-ok, require-eq-ok,
  or_throw-eq-ok, ok-injective, Bool-cases, inl, inr,
}
use one_autojs.Campaign.{
  CampaignCreative, CampaignManifest, RecoveryAction, CampaignEntry, Store, CampaignRequest,
  Boundary,
}
use one_autojs.Deployment.Archive.{is_empty}
use one_autojs.Campaign.Validate.{validate_campaign}
use one_autojs.Campaign.Operations.{
  is_pending, all_accepted, find_entry, find_creative, approves, verify_videos, approve, answered,
  sending, begin_tick, finish_tick, pending_entry, open_attempt, begin_recover, finish_recover,
}
use one_autojs.Campaign.Reschedule.{reschedule}
use one_autojs.Campaign.Attempt.{Resumed}
use one_autojs.Campaign.Review.{TaskView, inspect, accept_public}
use one_autojs.Campaign.Moves.{then_ok}
use one_autojs.Campaign.Resume.{ResumeAttempt, begin_resume, finish_resume}

-- The directory with `resume-attempts.json`, and the publications whose requests to publish went to
-- the transport, in a scheduling pass and in a resume.
pub record Campaign : Type 0 where
  pub store : Store
  pub resumes : List ResumeAttempt
  pub sent : List String
  pub resent : List String

-- What is on the disk after `recover`, whether or not the transport failed.
abbrev pub after_recover : Store → Outcome Store → Store
after_recover store (ok store') = store'
after_recover store (throw e) = store

abbrev pub with_manifest : Store → CampaignManifest → Store
with_manifest store manifest = record store { manifest = manifest }

pub data Step (b : Boundary) (c : Campaign) : Campaign → Type 0 where
  approving :
      (digest reviewer : String) (now : ℕ) (store' : Store)
      → approve b c.store digest reviewer now ≡ ok store'
      → Step b c (record c { store = store' })
  passing :
      (now : ℕ) (observed : Bool) (text : String) (store' : Store)
      → begin_tick b c.store now observed ≡ ok (answered text store')
      → Step b c (record c { store = store' })
  publishing :
      (now : ℕ) (observed : Bool) (id : String) (request : CampaignRequest) (store' : Store)
      (receipt : Outcome String)
      → begin_tick b c.store now observed ≡ ok (sending id request store')
      → Step b c (record c { store = finish_tick receipt id store'; sent = id ∷ c.sent })
  stopping :
      (now : ℕ) (observed : Bool) (id : String) (request : CampaignRequest) (store' : Store)
      → begin_tick b c.store now observed ≡ ok (sending id request store')
      → Step b c (record c { store = store'; sent = id ∷ c.sent })
  recovering :
      (id : String) (action : RecoveryAction) (now : ℕ) (request : CampaignRequest) (store' : Store)
      (receipt : Outcome String)
      → begin_recover b c.store id action ≡ ok (request, store')
      → Step b c
          (record c { store = after_recover store' (finish_recover receipt id action now store') })
  inspecting :
      (resumed : Option Resumed) (look : String → Outcome TaskView) (id : String) (now : ℕ)
      (store' : Store)
      → inspect b resumed look c.store id now ≡ ok store'
      → Step b c (record c { store = store' })
  accepting :
      (id url reviewer evidence : String) (now : ℕ) (store' : Store)
      → accept_public b c.store id url reviewer evidence now ≡ ok store'
      → Step b c (record c { store = store' })
  rescheduling :
      (slot : Option ℕ) (reviewer : String) (now : ℕ) (store' : Store)
      → reschedule b c.store slot reviewer now ≡ ok store'
      → Step b c (record c { store = store' })
  -- A resume or, with the flag, a continuation is dispatched and ends.
  resuming :
      (continuation : Bool) (id action : String) (proofs : Outcome (Unit {0}))
      (attempts : List ResumeAttempt) (request : CampaignRequest) (receipt : Outcome String)
      → begin_resume b c.store c.resumes continuation id action proofs ≡ ok (attempts, ok request)
      → Step b c (record c { resumes = finish_resume receipt attempts; resent = id ∷ c.resent })
  -- The process stops with the dispatch.
  resume_stopping :
      (continuation : Bool) (id action : String) (proofs : Outcome (Unit {0}))
      (attempts : List ResumeAttempt) (request : CampaignRequest)
      → begin_resume b c.store c.resumes continuation id action proofs ≡ ok (attempts, ok request)
      → Step b c (record c { resumes = attempts; resent = id ∷ c.resent })
  -- The process stops or fails before the dispatch.
  resume_failing :
      (continuation : Bool) (id action : String) (proofs : Outcome (Unit {0}))
      (attempts : List ResumeAttempt) (request : Outcome CampaignRequest)
      → begin_resume b c.store c.resumes continuation id action proofs ≡ ok (attempts, request)
      → Step b c (record c { resumes = attempts })
  editing :
      (manifest : CampaignManifest) → Step b c (record c { store = with_manifest c.store manifest })

pub approve-ledger :
    (b : Boundary) (store : Store) (digest reviewer : String) (now : ℕ) {store' : Store}
    → approve b store digest reviewer now ≡ ok store'
    → store.ledger ≡ store'.ledger
unfolding approve
approve-ledger b store digest reviewer now h0 =
    let (_, h1) = then_ok (validate_campaign b store.manifest) _ h0 in
    let (_, h2) =
      require-eq-ok
        (str_eq digest (b.digest store.manifest) && not (is_empty (codes (b.trim reviewer)))) _ _
        h1 in
    let (_, h3) = require-eq-ok (all_accepted store.ledger) _ _ h2 in
    let (_, h4) = then_ok (verify_videos b store.manifest.creatives) _ h3 in
    ap (λ s. s.ledger) (ok-injective h4)

pending_entry-eq-some :
    (o : Option CampaignEntry) {e : CampaignEntry}
    → pending_entry o ≡ some e
    → (o ≡ some e) × (is_pending e ≡ true)
unfolding pending_entry
pending_entry-eq-some none h = absurd (none≢some h)
pending_entry-eq-some (some x) {e} h = elim (Bool-cases (is_pending x)) [
  | inl p ↦
      let same : x ≡ e = some_inj (if_true _ _ p h) in
      (ap some same, subst (λ y. is_pending y ≡ true) same p)
  | inr p ↦ absurd (none≢some (if_false _ _ p h))
]

-- The entry that `recover` and `inspect` find is open.
pub open_attempt-IsPending :
    (b : Boundary) (store : Store) (id : String) {found : CampaignEntry × CampaignCreative}
    → open_attempt b store id ≡ ok found
    → (find_entry id store.ledger ≡ some found.0) × (is_pending found.0 ≡ true)
unfolding open_attempt
open_attempt-IsPending b store id {found} h0 =
    let (_, h1) = then_ok (validate_campaign b store.manifest) _ h0 in
    let (entry, e, h2) = or_throw-eq-ok (pending_entry (find_entry id store.ledger)) _ _ h1 in
    let (same, _, h3) = >>=-eq-ok (approves b store) _ h2 in
    let (_, h4) =
      require-eq-ok (str_eq entry.manifest_sha256 (b.digest store.manifest) && same) _ _ h3 in
    let (creative, _, h5) = or_throw-eq-ok (find_creative id store.manifest.creatives) _ _ h4 in
    let (there, p) = pending_entry-eq-some (find_entry id store.ledger) e in
    let named : entry ≡ found.0 = ap (λ x. x.0) (ok-injective h5) in
    (there ∙ ap some named, subst (λ x. is_pending x ≡ true) named p)
