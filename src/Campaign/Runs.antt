-- ===== src/Campaign/Runs.antt =====
-- Runs of a campaign, beside runs of the protocol of one publication after the other.
use one_autojs.Base.{
  ℕ, ◌≡◌, refl, sym, ap, subst, ◌∙◌, String, true, List, [], ◌∷◌, ◌++◌, none, some, Outcome, inl,
  inr,
}
use one_autojs.Campaign.{
  dispatching, missed, RecoveryTask, CampaignEntry, CampaignRequest, Store, Boundary,
}
use one_autojs.Campaign.Operations.{
  all_accepted, find_entry, update_entry, new_entry, Pass, answered, sending, push_entry,
  with_receipt, finish_tick, with_recovery, held,
}
use one_autojs.Campaign.Review.{reviewed}
use one_autojs.Campaign.Line.{Progress, view, ids_of, IsLine}
use one_autojs.Campaign.Moves.{
  Move, skips, begins, Moves, Moves-turn, Moves-push, IsPass, idle, skipping, attempting,
  begin_tick-IsPass,
}
use one_autojs.Campaign.Find.{find_entry-update_self}
use one_autojs.Campaign.Steps.{
  Campaign, Step, approving, passing, publishing, stopping, recovering, inspecting, accepting,
  rescheduling, resuming, resume_stopping, resume_failing, editing, approve-ledger,
}
use one_autojs.Campaign.Refine.{
  Moves-publish, Moves-begin_recover, finish_recover-cases, reviewed-IsPending, inspect-cases,
  accept_public-cases, Moves-accept,
}
use one_autojs.Campaign.Replan.{Moves-keep, reschedule-cases}

-- The moves of two changes of the ledger in a row.
pub data Follows : Progress → Progress → Type 0 where
  start : (p : Progress) → Follows p p
  after : {p q r : Progress} → Follows p q → Move q r → Follows p r

-- A change of the ledger follows the protocol, and leaves a line.
abbrev Kept : List CampaignEntry → List CampaignEntry → Type 0
Kept from to = Follows (view from) (view to) × IsLine to

Kept-Moves : (from to : List CampaignEntry) → Moves from to → Kept from to
Kept-Moves from to (m, line) = (after (start (view from)) m, line)

Kept-same : (from to : List CampaignEntry) → from ≡ to → IsLine from → Kept from to
Kept-same from to e line = subst (Kept from) e (start (view from), line)

Kept-then :
    (from mid to : List CampaignEntry) → Kept from mid → (IsLine mid → Moves mid to) → Kept from to
Kept-then from mid to (f, line) next = let (m, line') = next line in (after f m, line')

pub answered_store : {t u : String} {s s' : Store} → answered t s ≡ answered u s' → s ≡ s'
answered_store e = cc

sending_inj :
    {i j : String} {r q : CampaignRequest} {s s' : Store}
    → sending i r s ≡ sending j q s'
    → (i ≡ j) × (s ≡ s')
sending_inj e = (cc, cc)

skip_pushed :
    (b : Boundary) (store : Store) (id : String) (now : ℕ)
    → all_accepted store.ledger ≡ true
    → Moves store.ledger (store.ledger ++ new_entry b store id missed now ∷ [])
unfolding new_entry
skip_pushed b store id now all =
    Moves-push store.ledger (new_entry b store id missed now) all refl
      (skips (ids_of store.ledger) id)

answered-Kept :
    (b : Boundary) (store : Store) (now : ℕ) (text : String) (store' : Store)
    → IsLine store.ledger
    → IsPass b store now (answered text store')
    → Kept store.ledger store'.ledger
unfolding push_entry
answered-Kept b store now text store' line pass = by_pass (answered text store') pass refl
  where
    by_pass :
        (p : Pass)
        → IsPass b store now p
        → p ≡ answered text store'
        → Kept store.ledger store'.ledger
    by_pass _ (idle t) e =
        Kept-same store.ledger store'.ledger (ap (λ s. s.ledger) (answered_store e)) line
    by_pass _ (skipping id all new) e =
        subst (λ s. Kept store.ledger s.ledger) (answered_store e)
          (Kept-Moves store.ledger (store.ledger ++ new_entry b store id missed now ∷ [])
            (skip_pushed b store id now all))
    by_pass _ (attempting id request all new) e = cc

-- A request to publish is sent for a new publication, while all attempts before are accepted.
pub sending-new :
    (b : Boundary) (store : Store) (now : ℕ) (id : String) (request : CampaignRequest)
    (store' : Store)
    → IsPass b store now (sending id request store')
    → (all_accepted store.ledger ≡ true)
      × (find_entry id store.ledger ≡ none)
      × (store'.ledger ≡ store.ledger ++ new_entry b store id dispatching now ∷ [])
unfolding push_entry
sending-new b store now id request store' pass = by_pass (sending id request store') pass refl
  where
    by_pass :
        (p : Pass)
        → IsPass b store now p
        → p ≡ sending id request store'
        → (all_accepted store.ledger ≡ true)
          × (find_entry id store.ledger ≡ none)
          × (store'.ledger ≡ store.ledger ++ new_entry b store id dispatching now ∷ [])
    by_pass _ (idle t) e = cc
    by_pass _ (skipping i all new) e = cc
    by_pass _ (attempting i r all new) e =
        let (same, at) = sending_inj e in
        (
          all,
          subst (λ k. find_entry k store.ledger ≡ none) same new,
          ap (λ s. s.ledger) (sym at)
              ∙ ap (λ k. store.ledger ++ new_entry b store k dispatching now ∷ []) same,
        )

attempt_pushed :
    (b : Boundary) (store : Store) (id : String) (now : ℕ)
    → all_accepted store.ledger ≡ true
    → Moves store.ledger (store.ledger ++ new_entry b store id dispatching now ∷ [])
unfolding new_entry
attempt_pushed b store id now all =
    Moves-push store.ledger (new_entry b store id dispatching now) all refl
      (begins (ids_of store.ledger) id)

attempt_delivered :
    (b : Boundary) (store : Store) (id : String) (now : ℕ) (receipt : Outcome String)
    → all_accepted store.ledger ≡ true
    → find_entry id store.ledger ≡ none
    → Moves store.ledger (
        update_entry id
          (with_receipt receipt)
          (store.ledger ++ new_entry b store id dispatching now ∷ []))
unfolding new_entry
attempt_delivered b store id now receipt all new =
    Moves-publish store.ledger (new_entry b store id dispatching now) receipt all new

Moves-recovery :
    (ledger mid : List CampaignEntry) (id : String) (task : RecoveryTask) (e : CampaignEntry)
    → find_entry id ledger ≡ some e
    → mid ≡ update_entry id held ledger
    → IsLine mid
    → Moves mid (update_entry id (with_recovery task) mid)
Moves-recovery ledger mid id task e there same line =
    let found : find_entry id mid ≡ some (held e) =
      ap (find_entry id) same ∙ find_entry-update_self ledger id held e (λ x. refl) there in
    Moves-turn mid id (with_recovery task) (held e) line found refl refl refl

-- Every step of a campaign follows the protocol.
pub Step-Kept :
    (b : Boundary) {c c' : Campaign}
    → Step b c c'
    → IsLine c.store.ledger
    → Follows (view c.store.ledger) (view c'.store.ledger) × IsLine c'.store.ledger
unfolding finish_tick
Step-Kept b {c} (approving digest reviewer now store' done) line =
    Kept-same c.store.ledger store'.ledger (approve-ledger b c.store digest reviewer now done) line
Step-Kept b {c} (passing now observed text store' done) line =
    answered-Kept b c.store now text store' line (begin_tick-IsPass b c.store now observed done)
Step-Kept b {c} (publishing now observed id request store' receipt done) line =
    let (all, new, same) =
      sending-new b c.store now id request store' (begin_tick-IsPass b c.store now observed done) in
    subst (λ l. Kept c.store.ledger (update_entry id (with_receipt receipt) l)) (sym same)
      (Kept-Moves c.store.ledger _ (attempt_delivered b c.store id now receipt all new))
Step-Kept b {c} (stopping now observed id request store' done) line =
    let (all, new, same) =
      sending-new b c.store now id request store' (begin_tick-IsPass b c.store now observed done) in
    subst (Kept c.store.ledger) (sym same)
      (Kept-Moves c.store.ledger _ (attempt_pushed b c.store id now all))
Step-Kept b {c} (recovering id action now request store' receipt done) line =
    let (m, (e, there, same)) = Moves-begin_recover b c.store id action line done in
    let kept = Kept-Moves c.store.ledger store'.ledger m in
    elim (finish_recover-cases receipt id action now store') [
      | inl still ↦ subst (λ s. Kept c.store.ledger s.ledger) (sym still) kept
      | inr (task, after_task) ↦ subst (Kept c.store.ledger) (sym after_task) (
          Kept-then c.store.ledger store'.ledger _ kept
            (Moves-recovery c.store.ledger store'.ledger id task e there same))
    ]
Step-Kept b {c} (inspecting resumed look id now store' done) line =
    let (e, there, p, which) = inspect-cases b resumed look c.store id now done in
    elim which [
      | inl same ↦ Kept-same c.store.ledger store'.ledger (sym same) line
      | inr (url, same) ↦ subst (Kept c.store.ledger) (sym same) (
          Kept-Moves c.store.ledger _ (
            Moves-turn c.store.ledger id (reviewed url) e line there p (reviewed-IsPending url e).0
              (reviewed-IsPending url e).1))
    ]
Step-Kept b {c} (accepting id url reviewer evidence now store' done) line =
    let (e, acceptance, there, state, same) =
      accept_public-cases b c.store id url reviewer evidence now done in
    subst (Kept c.store.ledger) (sym same) (
      Kept-Moves c.store.ledger _
        (Moves-accept c.store.ledger id url acceptance e line there state))
Step-Kept b {c} (rescheduling slot reviewer now store' done) line =
    let (m, closed_all, same) = reschedule-cases b c.store slot reviewer now done in
    subst (Kept c.store.ledger) (sym same)
      (Kept-Moves c.store.ledger _ (Moves-keep c.store.ledger line m closed_all))
Step-Kept b {c} (resuming continuation id action proofs attempts request receipt done) line =
    (start (view c.store.ledger), line)
Step-Kept b {c} (resume_stopping continuation id action proofs attempts request done) line =
    (start (view c.store.ledger), line)
Step-Kept b {c} (resume_failing continuation id action proofs attempts request done) line =
    (start (view c.store.ledger), line)
Step-Kept b {c} (editing manifest) line = (start (view c.store.ledger), line)

pub data Reach (b : Boundary) (c : Campaign) : Campaign → Type 0 where
  here : Reach b c c
  next : {d e : Campaign} → Reach b c d → Step b d e → Reach b c e
