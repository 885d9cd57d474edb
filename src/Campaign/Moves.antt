-- ===== src/Campaign/Moves.antt =====
-- The operations of a campaign as moves of its progress.
use one_autojs.Base.{
  ℕ, ◌≡◌, ◌≢◌, refl, sym, ap, subst, ◌∙◌, String, Bool, true, false, not, ◌&&◌, ◌||◌, List, [], ◌∷◌,
  ◌++◌, Option, none, some, some_inj, none≢some, if_true, if_false, Outcome, ok, ◌>>◌, >>=-eq-ok,
  require-eq-ok, ok-injective, if◌then◌else◌, Option-cases, inl, inr,
}
use one_autojs.Campaign.{
  CampaignCreative, EntryState, dispatching, accepted, hold, review_required, public_accepted,
  missed, publish_action, CampaignEntry, Store, CampaignRequest, Boundary,
}
use one_autojs.Campaign.Validate.{validate_campaign, creative_request}
use one_autojs.Campaign.Operations.{
  is_accepted, is_missed, is_pending, all_accepted, find_entry, update_entry, is_known,
  next_creative, is_approved, verify_video, is_early, is_late, has_entries, some_on_day, new_entry,
  Pass, answered, sending, push_entry, attempt, consider, unless_held, begin_tick,
}
use one_autojs.Campaign.Line.{
  Phase, skipped, unresolved, reviewing, Progress, view, phase_of, ids_of, IsLine, ending,
  view-all_accepted, view-push, update_entry-ending,
}

-- One publication after the other: an attempt begins only when all before it are settled, and is
-- settled only from its review.
pub data Move : Progress → Progress → Type 0 where
  stays : (p : Progress) → Move p p
  skips : (settled : List String) (id : String) → Move (settled, none) (settled, some (id, skipped))
  begins :
      (settled : List String) (id : String) → Move (settled, none) (settled, some (id, unresolved))
  turns :
      (settled : List String) (id : String) (from to : Phase)
      → from ≢ skipped
      → to ≢ skipped
      → Move (settled, some (id, from)) (settled, some (id, to))
  settles :
      (settled : List String) (id : String)
      → Move (settled, some (id, reviewing)) (settled ++ id ∷ [], none)
  reopens :
      (settled : List String) (id : String) → Move (settled, some (id, skipped)) (settled, none)

-- A change of the ledger is a move, and the ledger stays a line.
abbrev pub Moves : List CampaignEntry → List CampaignEntry → Type 0
Moves from to = Move (view from) (view to) × IsLine to

pub Moves-same : (ledger : List CampaignEntry) → IsLine ledger → Moves ledger ledger
Moves-same ledger line = (stays (view ledger), line)

pub along : {p p' q q' : Progress} → p ≡ p' → q ≡ q' → Move p' q' → Move p q
along {p} {p'} {q} {q'} e f m = subst (λ x. Move x q) (sym e) (subst (λ y. Move p' y) (sym f) m)

pub next_creative-new :
    (creatives : List CampaignCreative) (ledger : List CampaignEntry) {c : CampaignCreative}
    → next_creative creatives ledger ≡ some c
    → find_entry c.publication_id ledger ≡ none
unfolding next_creative
next_creative-new [] ledger h = absurd (none≢some h)
next_creative-new (x ∷ rest) ledger {c} h =
    elim (Option-cases (find_entry x.publication_id ledger)) [
      | inl e ↦
          subst (λ y. find_entry y.publication_id ledger ≡ none)
            (some_inj (if_false _ _ (ap is_known e) h)) e
      | inr (y, e) ↦ next_creative-new rest ledger (if_true _ _ (ap is_known e) h)
    ]

-- A pass that is not answered with the store as it was pushed an entry for a new publication while
-- all entries were accepted.
pub data IsPass (b : Boundary) (store : Store) (now : ℕ) : Pass → Type 0 where
  idle : (text : String) → IsPass b store now (answered text store)
  skipping :
      (id : String)
      → all_accepted store.ledger ≡ true
      → find_entry id store.ledger ≡ none
      → IsPass b store now (answered "MISSED" (push_entry store (new_entry b store id missed now)))
  attempting :
      (id : String) (request : CampaignRequest)
      → all_accepted store.ledger ≡ true
      → find_entry id store.ledger ≡ none
      → IsPass b store now
          (sending id request (push_entry store (new_entry b store id dispatching now)))

pub then_ok {ℓ} :
    {A : Type ℓ} (first : Outcome (Unit {0})) {a : A} (next : Outcome A)
    → (first >> next) ≡ ok a
    → (first ≡ ok tt) × (next ≡ ok a)
then_ok (Outcome.ok tt) next h = (refl, h)
then_ok (Outcome.throw e) next h = cc

attempt-IsPass :
    (b : Boundary) (store : Store) (now : ℕ) (observed : Bool) (c : CampaignCreative) {pass : Pass}
    → all_accepted store.ledger ≡ true
    → find_entry c.publication_id store.ledger ≡ none
    → attempt b store now observed c ≡ ok pass
    → IsPass b store now pass
unfolding attempt
attempt-IsPass b store now observed c a n h0 =
    let (_, h1) = require-eq-ok (has_entries store.ledger || observed) _ _ h0 in
    let (_, h2) = require-eq-ok (not (some_on_day now store.ledger)) _ _ h1 in
    let (_, h3) = then_ok (verify_video b c) _ h2 in
    let (request, _, h4) =
      >>=-eq-ok (b.normalize (creative_request publish_action store.manifest c)) _ h3 in
    subst (IsPass b store now) (ok-injective h4) (attempting c.publication_id request a n)

consider-IsPass :
    (b : Boundary) (store : Store) (now : ℕ) (observed : Bool) (o : Option CampaignCreative)
    {pass : Pass}
    → all_accepted store.ledger ≡ true
    → next_creative store.manifest.creatives store.ledger ≡ o
    → consider b store now observed o ≡ ok pass
    → IsPass b store now pass
unfolding consider
consider-IsPass b store now observed none a n h =
    subst (IsPass b store now) (ok-injective h) (idle "COMPLETE")
consider-IsPass b store now observed (some c) {pass} a n h =
    by_time (is_early now c.scheduled_at) (is_late now c.scheduled_at) h
  where
    fresh : find_entry c.publication_id store.ledger ≡ none
    fresh = next_creative-new store.manifest.creatives store.ledger n

    by_time :
        (early late : Bool)
        → (if early
            then ok (answered "NOT_DUE" store)
            else if late
            then ok (
                answered "MISSED"
                  (push_entry store (new_entry b store c.publication_id missed now)))
            else attempt b store now observed c)
          ≡ ok pass
        → IsPass b store now pass
    by_time true late e = subst (IsPass b store now) (ok-injective e) (idle "NOT_DUE")
    by_time false true e =
        subst (IsPass b store now) (ok-injective e) (skipping c.publication_id a fresh)
    by_time false false e = attempt-IsPass b store now observed c a fresh e

pub begin_tick-IsPass :
    (b : Boundary) (store : Store) (now : ℕ) (observed : Bool) {pass : Pass}
    → begin_tick b store now observed ≡ ok pass
    → IsPass b store now pass
unfolding begin_tick
begin_tick-IsPass b store now observed {pass} h0 =
    let (_, h1) = then_ok (validate_campaign b store.manifest) _ h0 in
    let (_, h2) = require-eq-ok (is_approved b store now store.approval) _ _ h1 in
    by_ledger (all_accepted store.ledger) refl h2
  where
    by_ledger :
        (all : Bool)
        → all_accepted store.ledger ≡ all
        → unless_held all store
            (consider b store now observed (next_creative store.manifest.creatives store.ledger))
          ≡ ok pass
        → IsPass b store now pass
    by_ledger true a e =
        consider-IsPass b store now observed (next_creative store.manifest.creatives store.ledger) a
          refl e
    by_ledger false a e = subst (IsPass b store now) (ok-injective e) (idle "HOLD_EXISTING_ATTEMPT")

pub pending-open : (e : CampaignEntry) → is_pending e ≡ true → is_accepted e.state ≡ false
pending-open e h = (not_or (is_missed e.state) (is_accepted e.state) h).1
  where
    not_or : (a b : Bool) → (not a && not b) ≡ true → (a ≡ false) × (b ≡ false)
    not_or false false h = (refl, refl)
    not_or false true h = cc
    not_or true b h = cc

pending-phase : (e : CampaignEntry) → is_pending e ≡ true → phase_of e.state ≢ skipped
pending-phase e h = by_state e.state h
  where
    by_state :
        (s : EntryState) → (not (is_missed s) && not (is_accepted s)) ≡ true → phase_of s ≢ skipped
    by_state dispatching h = λ p. cc
    by_state accepted h = λ p. cc
    by_state hold h = λ p. cc
    by_state review_required h = λ p. cc
    by_state public_accepted h = cc
    by_state missed h = cc

-- The change of an entry that is open, as the ledger's progress shows it.
pub Moves-turn :
    (ledger : List CampaignEntry) (id : String) (change : CampaignEntry → CampaignEntry)
    (e : CampaignEntry)
    → IsLine ledger
    → find_entry id ledger ≡ some e
    → is_pending e ≡ true
    → (change e).publication_id ≡ e.publication_id
    → is_pending (change e) ≡ true
    → Moves ledger (update_entry id change ledger)
Moves-turn ledger id change e line found p keeps p' =
    let (before, all, named, shape, after) =
      update_entry-ending ledger id change e line found (pending-open e p) in
    (
      along (ap view shape ∙ view-push before e all (pending-open e p))
          (ap view after
            ∙ view-push before (change e) all (pending-open (change e) p')
            ∙ ap (λ i. (ids_of before, some (i, phase_of (change e).state))) keeps)
          (turns (ids_of before) e.publication_id (phase_of e.state) (phase_of (change e).state)
            (pending-phase e p) (pending-phase (change e) p')),
      ending before (change e) all (pending-open (change e) p') after,
    )

pub Moves-push :
    (ledger : List CampaignEntry) (e : CampaignEntry)
    → all_accepted ledger ≡ true
    → is_accepted e.state ≡ false
    → Move (ids_of ledger, none) (ids_of ledger, some (e.publication_id, phase_of e.state))
    → Moves ledger (ledger ++ e ∷ [])
Moves-push ledger e all n m =
    (along (view-all_accepted ledger all) (view-push ledger e all n) m, ending ledger e all n refl)
