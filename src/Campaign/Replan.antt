-- ===== src/Campaign/Replan.antt =====
-- `reschedule` as a move: the missed publication, if it is the open one, is open no longer.
use one_autojs.Base.{
  ℕ, ◌≡◌, refl, sym, ap, subst, ◌∙◌, String, Bool, true, false, not, ◌&&◌, ◌||◌, List, [], ◌∷◌,
  ◌++◌, Option, some, codes, ok, require-eq-ok, ok-injective, Bool-cases, inl, inr, false≢true,
  arith,
}
use one_autojs.Deployment.Archive.{is_empty}
use one_autojs.Campaign.{EntryState, CampaignEntry, Store, Boundary}
use one_autojs.Campaign.Validate.{validate_campaign}
use one_autojs.Campaign.Operations.{is_accepted, is_missed, all_accepted}
use one_autojs.Campaign.Reschedule.{
  some_missed, all_closed, keep_accepted, is_future, start_or_zero, replanned, reschedule,
}
use one_autojs.Campaign.Line.{
  skipped, view, phase_of, ids_of, IsLine, closed, ending, view-all_accepted, view-push,
}
use one_autojs.Campaign.Moves.{reopens, Moves, along, then_ok}

keep_accepted-all :
    (ledger : List CampaignEntry) → all_accepted ledger ≡ true → keep_accepted ledger ≡ ledger
unfolding keep_accepted all_accepted
keep_accepted-all [] h = refl
keep_accepted-all (e ∷ rest) h = elim (Bool-cases (is_accepted e.state)) [
  | inl a ↦ rw a (ap (λ l. e ∷ l) (keep_accepted-all rest (ground arith)))
  | inr n ↦ absurd (false≢true (ground arith))
]

keep_accepted-last :
    (before : List CampaignEntry) (e : CampaignEntry)
    → all_accepted before ≡ true
    → is_accepted e.state ≡ false
    → keep_accepted (before ++ e ∷ []) ≡ before
unfolding keep_accepted all_accepted
keep_accepted-last [] e h n = rw n
keep_accepted-last (x ∷ rest) e h n = elim (Bool-cases (is_accepted x.state)) [
  | inl a ↦ rw a (ap (λ l. x ∷ l) (keep_accepted-last rest e (ground arith) n))
  | inr m ↦ absurd (false≢true (ground arith))
]

all_closed-last :
    (before : List CampaignEntry) (e : CampaignEntry)
    → all_closed (before ++ e ∷ []) ≡ true
    → is_accepted e.state ≡ false
    → is_missed e.state ≡ true
unfolding all_closed
all_closed-last [] e h n = ground arith
all_closed-last (x ∷ rest) e h n = all_closed-last rest e (and_right _ _ h) n
  where
    and_right : (a b : Bool) → (a && b) ≡ true → b ≡ true
    and_right true b k = k
    and_right false b k = cc

pub and_both : (a b : Bool) → (a && b) ≡ true → (a ≡ true) × (b ≡ true)
and_both true b h = (refl, h)
and_both false b h = cc

pub accepted-present : (s : EntryState) → is_accepted s ≡ true → is_missed s ≡ false
accepted-present EntryState.public_accepted h = refl
accepted-present EntryState.missed h = cc
accepted-present EntryState.dispatching h = cc
accepted-present EntryState.accepted h = cc
accepted-present EntryState.hold h = cc
accepted-present EntryState.review_required h = cc

some_missed-all :
    (ledger : List CampaignEntry) → all_accepted ledger ≡ true → some_missed ledger ≡ false
unfolding some_missed all_accepted
some_missed-all [] h = refl
some_missed-all (e ∷ rest) h =
    let (a, r) = and_both (is_accepted e.state) (all_accepted rest) h in
    ap (λ b. b || some_missed rest) (accepted-present e.state a) ∙ some_missed-all rest r

missed-skipped : (s : EntryState) → is_missed s ≡ true → phase_of s ≡ skipped
missed-skipped EntryState.missed h = refl
missed-skipped EntryState.public_accepted h = cc
missed-skipped EntryState.dispatching h = cc
missed-skipped EntryState.accepted h = cc
missed-skipped EntryState.hold h = cc
missed-skipped EntryState.review_required h = cc

pub Moves-keep :
    (ledger : List CampaignEntry)
    → IsLine ledger
    → some_missed ledger ≡ true
    → all_closed ledger ≡ true
    → Moves ledger (keep_accepted ledger)
Moves-keep ledger (closed all) m c = absurd (false≢true (sym (some_missed-all ledger all) ∙ m))
Moves-keep ledger (ending before e all n shape) m c =
    let gone = all_closed-last before e (subst (λ l. all_closed l ≡ true) shape c) n in
    let kept = ap keep_accepted shape ∙ keep_accepted-last before e all n in
    (
      along
          (ap view shape
            ∙ view-push before e all n
            ∙ ap (λ p. (ids_of before, some (e.publication_id, p))) (missed-skipped e.state gone))
          (ap view kept ∙ view-all_accepted before all) (reopens (ids_of before) e.publication_id),
      closed (ap all_accepted kept ∙ all),
    )

pub reschedule-cases :
    (b : Boundary) (store : Store) (slot : Option ℕ) (reviewer : String) (now : ℕ) {store' : Store}
    → reschedule b store slot reviewer now ≡ ok store'
    → (some_missed store.ledger ≡ true)
      × (all_closed store.ledger ≡ true)
      × (store'.ledger ≡ keep_accepted store.ledger)
unfolding reschedule
reschedule-cases b store slot reviewer now h0 =
    let (_, h1) = then_ok (validate_campaign b store.manifest) _ h0 in
    let (t, h2) =
      require-eq-ok
        (not (is_empty (codes (b.trim reviewer)))
          && some_missed store.ledger
          && all_closed store.ledger)
        _ _ h1 in
    let (_, h3) = require-eq-ok (is_future now slot) _ _ h2 in
    let (_, h4) = then_ok (validate_campaign b (replanned store (start_or_zero slot))) _ h3 in
    let (_, m, c) = and_three _ _ _ t in (m, c, ap (λ s. s.ledger) (sym (ok-injective h4)))
  where
    and_three : (x y z : Bool) → (x && y && z) ≡ true → (x ≡ true) × (y ≡ true) × (z ≡ true)
    and_three true true z k = (refl, refl, k)
    and_three true false z k = cc
    and_three false y z k = cc
