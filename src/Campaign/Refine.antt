-- ===== src/Campaign/Refine.antt =====
-- Every step of a campaign is a move of its progress.
use one_autojs.Base.{
  ℕ, ◌≡◌, ◌⊎◌, refl, sym, ap, subst, ◌∙◌, String, Bool, true, false, not, ◌&&◌, List, [], ◌∷◌, ◌++◌,
  Option, none, some, codes, is_sha256, Outcome, ok, throw, >>=-eq-ok, require-eq-ok, ok-injective,
  if◌then◌else◌, Bool-cases, inl, inr,
}
use one_autojs.Deployment.Archive.{is_empty}
use one_autojs.Campaign.{
  EntryState, dispatching, accepted, hold, review_required, public_accepted, missed, RecoveryAction,
  RecoveryTask, PublicAcceptance, CampaignEntry, CampaignRequest, Store, Boundary, recovery_action,
}
use one_autojs.Campaign.Validate.{validate_campaign, creative_request}
use one_autojs.Campaign.Operations.{
  is_accepted, is_missed, is_pending, all_accepted, find_entry, update_entry, approves,
  with_receipt, open_attempt, held, begin_recover, with_recovery, finish_recover,
}
use one_autojs.Campaign.Attempt.{Resumed, inspection_attempt}
use one_autojs.Campaign.Review.{
  TaskView, valid_url, reviewed, is_running, inspect, is_review, awaits, with_acceptance,
  accept_public, is_canonical_url,
}
use one_autojs.Campaign.Line.{
  unresolved, view, phase_of, ids_of, IsLine, closed, ending, view-all_accepted, view-push,
  all_accepted-push, ids_of-push, update_entry-last, update_entry-ending,
}
use one_autojs.Campaign.Moves.{begins, settles, Moves, along, Moves-turn, then_ok}
use one_autojs.Campaign.Steps.{after_recover, open_attempt-IsPending}

pub with_receipt-open :
    (receipt : Outcome String) (e : CampaignEntry)
    → ((with_receipt receipt e).publication_id ≡ e.publication_id)
      × (is_accepted (with_receipt receipt e).state ≡ false)
      × (is_missed (with_receipt receipt e).state ≡ false)
      × (phase_of (with_receipt receipt e).state ≡ unresolved)
unfolding with_receipt
with_receipt-open (throw x) e = (refl, refl, refl, refl)
with_receipt-open (ok task_id) e = elim (Bool-cases (not (is_empty (codes task_id)))) [
  | inl text ↦ rw text (refl, refl, refl, refl)
  | inr empty ↦ rw empty (refl, refl, refl, refl)
]

-- A new attempt, with the outcome of its delivery.
pub Moves-publish :
    (ledger : List CampaignEntry) (e : CampaignEntry) (receipt : Outcome String)
    → all_accepted ledger ≡ true
    → find_entry e.publication_id ledger ≡ none
    → Moves ledger (update_entry e.publication_id (with_receipt receipt) (ledger ++ e ∷ []))
Moves-publish ledger e receipt all new =
    let (keeps, unsettled, _, phase) = with_receipt-open receipt e in
    let after = update_entry-last ledger e e.publication_id (with_receipt receipt) new refl in
    (
      along (view-all_accepted ledger all)
          (ap view after
            ∙ view-push ledger (with_receipt receipt e) all unsettled
            ∙ ap (λ i. (ids_of ledger, some (i, phase_of (with_receipt receipt e).state))) keeps
            ∙ ap (λ p. (ids_of ledger, some (e.publication_id, p))) phase)
          (begins (ids_of ledger) e.publication_id),
      ending ledger (with_receipt receipt e) all unsettled after,
    )

pub begin_recover-ledger :
    (b : Boundary) (store : Store) (id : String) (action : RecoveryAction)
    {request : CampaignRequest} {store' : Store}
    → begin_recover b store id action ≡ ok (request, store')
    → store'.ledger ≡ update_entry id held store.ledger
unfolding begin_recover
begin_recover-ledger b store id action h0 =
    let (found, _, h1) = >>=-eq-ok (open_attempt b store id) _ h0 in
    let (_, _, h2) =
      >>=-eq-ok (b.normalize (creative_request (recovery_action action) store.manifest found.1)) _
        h1 in
    ap (λ x. x.1.ledger) (sym (ok-injective h2))

-- `recover`, before and after the transport.
pub Moves-begin_recover :
    (b : Boundary) (store : Store) (id : String) (action : RecoveryAction)
    {request : CampaignRequest} {store' : Store}
    → IsLine store.ledger
    → begin_recover b store id action ≡ ok (request, store')
    → Moves store.ledger store'.ledger
      × ((e : CampaignEntry) × (find_entry id store.ledger ≡ some e)
          × (store'.ledger ≡ update_entry id held store.ledger))
unfolding begin_recover
Moves-begin_recover b store id action {request} {store'} line h0 =
    let (found, o, h1) = >>=-eq-ok (open_attempt b store id) _ h0 in
    let (req, _, h2) =
      >>=-eq-ok (b.normalize (creative_request (recovery_action action) store.manifest found.1)) _
        h1 in
    let (there, p) = open_attempt-IsPending b store id o in
    let same : update_entry id held store.ledger ≡ store'.ledger =
      ap (λ x. x.1.ledger) (ok-injective h2) in
    (
      subst (Moves store.ledger) same
          (Moves-turn store.ledger id held found.0 line there p refl refl),
      (found.0, there, sym same),
    )

pub finish_recover-cases :
    (receipt : Outcome String) (id : String) (action : RecoveryAction) (now : ℕ) (store : Store)
    → (after_recover store (finish_recover receipt id action now store) ≡ store)
      ⊎ ((task : RecoveryTask) × ((after_recover store
              (finish_recover receipt id action now store)).ledger
            ≡ update_entry id (with_recovery task) store.ledger))
unfolding finish_recover
finish_recover-cases (throw e) id action now store = inl refl
finish_recover-cases (ok task_id) id action now store =
    inr (record { task_id = task_id; action = action; at = now }, refl)

pub reviewed-IsPending :
    (url : Option String) (e : CampaignEntry)
    → ((reviewed url e).publication_id ≡ e.publication_id) × (is_pending (reviewed url e) ≡ true)
reviewed-IsPending none e = (refl, refl)
reviewed-IsPending (some url) e = (refl, refl)

pub inspect-cases :
    (b : Boundary) (resumed : Option Resumed) (look : String → Outcome TaskView) (store : Store)
    (id : String) (now : ℕ) {store' : Store}
    → inspect b resumed look store id now ≡ ok store'
    → (e : CampaignEntry) × (find_entry id store.ledger ≡ some e)
      × (is_pending e ≡ true)
      × ((store'.ledger ≡ store.ledger)
          ⊎ ((url : Option String) × (store'.ledger ≡ update_entry id (reviewed url) store.ledger)))
unfolding inspect
inspect-cases b resumed look store id now {store'} h0 =
    let (found, o, h1) = >>=-eq-ok (open_attempt b store id) _ h0 in
    let (attempted, _, h2) = >>=-eq-ok (inspection_attempt found.0 resumed) _ h1 in
    let (task, _, h3) = >>=-eq-ok (look attempted.task_id) _ h2 in
    let (there, p) = open_attempt-IsPending b store id o in
    (
      found.0,
      there,
      p,
      by_status (is_running task.status) (valid_url b store.manifest found.1 attempted now task)
          (ap (λ s. s.ledger) (sym (ok-injective h3))),
    )
  where
    by_status :
        (running : Bool) (url : Option String)
        → store'.ledger
          ≡ (if running then store.ledger else update_entry id (reviewed url) store.ledger)
        → (store'.ledger ≡ store.ledger)
          ⊎ ((u : Option String) × (store'.ledger ≡ update_entry id (reviewed u) store.ledger))
    by_status true url e = inl e
    by_status false url e = inr (url, e)

awaits-IsReview :
    (url : String) (o : Option CampaignEntry)
    → awaits url o ≡ true
    → (e : CampaignEntry) × (o ≡ some e) × (e.state ≡ review_required)
awaits-IsReview url none h = cc
awaits-IsReview url (some e) h = (e, refl, by_state e.state (and_left _ _ h))
  where
    and_left : (a b : Bool) → (a && b) ≡ true → a ≡ true
    and_left true b h = refl
    and_left false b h = cc

    by_state : (s : EntryState) → is_review s ≡ true → s ≡ review_required
    by_state review_required h = refl
    by_state dispatching h = cc
    by_state accepted h = cc
    by_state hold h = cc
    by_state public_accepted h = cc
    by_state missed h = cc

pub accept_public-cases :
    (b : Boundary) (store : Store) (id url reviewer evidence : String) (now : ℕ) {store' : Store}
    → accept_public b store id url reviewer evidence now ≡ ok store'
    → (e : CampaignEntry) × (acceptance : PublicAcceptance) × (find_entry id store.ledger ≡ some e)
      × (e.state ≡ review_required)
      × (store'.ledger ≡ update_entry id (with_acceptance url acceptance) store.ledger)
unfolding accept_public
accept_public-cases b store id url reviewer evidence now h0 =
    let (_, h1) = then_ok (validate_campaign b store.manifest) _ h0 in
    let (same, _, h2) = >>=-eq-ok (approves b store) _ h1 in
    let (_, h3) = require-eq-ok same _ _ h2 in
    let (_, h4) = require-eq-ok (is_canonical_url store.manifest.expected_handle url) _ _ h3 in
    let (_, h5) =
      require-eq-ok (not (is_empty (codes (b.trim reviewer))) && is_sha256 evidence) _ _ h4 in
    let (w, h6) = require-eq-ok (awaits url (find_entry id store.ledger)) _ _ h5 in
    let (e, there, state) = awaits-IsReview url (find_entry id store.ledger) w in
    (
      e,
      record { reviewer = reviewer; verified_at = now; evidence_sha256 = evidence },
      there,
      state,
      ap (λ s. s.ledger) (sym (ok-injective h6)),
    )

pub Moves-accept :
    (ledger : List CampaignEntry) (id url : String) (acceptance : PublicAcceptance)
    (e : CampaignEntry)
    → IsLine ledger
    → find_entry id ledger ≡ some e
    → e.state ≡ review_required
    → Moves ledger (update_entry id (with_acceptance url acceptance) ledger)
Moves-accept ledger id url acceptance e line found state =
    let unsettled : is_accepted e.state ≡ false = ap is_accepted state in
    let (before, all, named, shape, after) =
      update_entry-ending ledger id (with_acceptance url acceptance) e line found unsettled in
    let final = all_accepted-push before (with_acceptance url acceptance e) all refl in
    (
      along
          (ap view shape
            ∙ view-push before e all unsettled
            ∙ ap (λ s. (ids_of before, some (e.publication_id, phase_of s))) state)
          (ap view after
            ∙ view-all_accepted (before ++ with_acceptance url acceptance e ∷ []) final
            ∙ ap (λ ids. (ids, none)) (ids_of-push before (with_acceptance url acceptance e)))
          (settles (ids_of before) e.publication_id),
      closed (ap all_accepted after ∙ final),
    )
