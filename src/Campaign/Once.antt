-- ===== src/Campaign/Once.antt =====
-- How often a publication is sent to be published.
use one_autojs.Base.{
  ◌+◌, ◌≤◌, arith, ap, ◌∙◌, Bool, List, str_eq, eq_iff, Bool-cases, Outcome, ok, if◌then◌else◌, ℕ,
  ◌≡◌, ◌≢◌, refl, sym, subst, String, false, [], ◌∷◌, Option, none, some, inl, inr, All, All-map,
}
use one_autojs.Campaign.{dispatching, missed, CampaignEntry, CampaignRequest, Store, Boundary}
use one_autojs.Campaign.Operations.{
  is_missed, find_entry, new_entry, Pass, answered, push_entry, with_receipt, finish_tick,
  with_recovery, finish_recover, held,
}
use one_autojs.Campaign.Review.{reviewed, with_acceptance}
use one_autojs.Campaign.Line.{KeepsId}
use one_autojs.Campaign.Moves.{IsPass, idle, skipping, attempting, begin_tick-IsPass}
use one_autojs.Campaign.Steps.{
  Campaign, after_recover, Step, approving, passing, publishing, stopping, recovering, inspecting,
  accepting, rescheduling, resuming, resume_stopping, resume_failing, editing, approve-ledger,
}
use one_autojs.Campaign.Refine.{
  with_receipt-open, begin_recover-ledger, finish_recover-cases, inspect-cases, accept_public-cases,
}
use one_autojs.Campaign.Resume.{
  ResumeAttempt, begin_resume, new_attempt, resume_count, resume_count-finish, resume_count-push,
  begin_resume-few,
}
use one_autojs.Campaign.Replan.{reschedule-cases}
use one_autojs.Campaign.Runs.{answered_store, sending-new, Reach, here, next}
use one_autojs.Campaign.Tracked.{
  IsTracked, IsDistinct, update-IsTracked, push-IsTracked, keep-IsTracked, untracked-apart,
  new-IsTracked, Tracks, Tracks-eq,
}

abbrev pub count : String → List String → ℕ
count id [] = 0
count id (x ∷ xs) = (if str_eq x id then 1 else 0) + count id xs

-- What was sent by scheduling passes, and what by resumes, each of which left a record of itself.
pub record IsOnce (c : Campaign) : Type 0 where
  pub tracked : All (IsTracked c.store.ledger) c.sent
  pub distinct : IsDistinct c.sent
  pub recorded : (id : String) → count id c.resent ≤ resume_count id c.resumes
  pub few : (id : String) → resume_count id c.resumes ≤ 2

IsOnce-same :
    (c : Campaign) (store' : Store)
    → Tracks c.store.ledger store'.ledger
    → IsOnce c
    → IsOnce (record c { store = store' })
IsOnce-same c store' f o = record {
  tracked = All-map (IsTracked c.store.ledger) (IsTracked store'.ledger) f c.sent o.tracked;
  distinct = o.distinct;
  recorded = o.recorded;
  few = o.few;
}

IsOnce-sent :
    (c : Campaign) (id : String) (store' : Store)
    → find_entry id c.store.ledger ≡ none
    → Tracks c.store.ledger store'.ledger
    → IsTracked store'.ledger id
    → IsOnce c
    → IsOnce (record c { store = store'; sent = id ∷ c.sent })
IsOnce-sent c id store' new f here_now o = record {
  tracked =
      (here_now, All-map (IsTracked c.store.ledger) (IsTracked store'.ledger) f c.sent o.tracked);
  distinct = (
    All-map (IsTracked c.store.ledger) (λ i. id ≢ i) (untracked-apart c.store.ledger id new) c.sent
        o.tracked,
    o.distinct,
  );
  recorded = o.recorded;
  few = o.few;
}

-- A resume goes on the record, and is sent or not.
IsOnce-resume :
    (b : Boundary) (c : Campaign) (continuation : Bool) (id action : String)
    (proofs : Outcome (Unit {0})) (attempts after : List ResumeAttempt)
    (request : Outcome CampaignRequest) (resent : List String)
    → begin_resume b c.store c.resumes continuation id action proofs ≡ ok (attempts, request)
    → ((i : String) → resume_count i after ≡ resume_count i attempts)
    → ((i : String) → count i resent ≤ count i c.resent + (if str_eq id i then 1 else 0))
    → IsOnce c
    → IsOnce (record c { resumes = after; resent = resent })
unfolding new_attempt
IsOnce-resume b c continuation id action proofs attempts after request resent done same sent o =
    let (pushed, before) =
      begin_resume-few b c.store c.resumes continuation id action proofs done in
    let counted : (i : String)
        → resume_count i after ≡ resume_count i c.resumes + (if str_eq id i then 1 else 0) =
      λ i.
        same i
        ∙ ap (resume_count i) pushed
        ∙ resume_count-push i c.resumes (new_attempt continuation id action) in
    record {
      tracked = o.tracked;
      distinct = o.distinct;
      recorded =
          λ i. let was = o.recorded i in let most = sent i in let now_on = counted i in omega arith;
      few = λ i. elim (Bool-cases (str_eq id i)) [
        | inl this ↦
            let one = subst (λ k. resume_count k c.resumes ≤ 1) ((eq_iff id i).0 this) before in
            let now_on = rw this at (counted i) in omega arith
        | inr that ↦ let was = o.few i in let now_on = rw that at (counted i) in omega arith
      ];
    }

answered-Tracks :
    (b : Boundary) (store : Store) (now : ℕ) (text : String) (store' : Store)
    → IsPass b store now (answered text store')
    → Tracks store.ledger store'.ledger
unfolding push_entry
answered-Tracks b store now text store' pass i t = by_pass (answered text store') pass refl
  where
    by_pass :
        (p : Pass) → IsPass b store now p → p ≡ answered text store' → IsTracked store'.ledger i
    by_pass _ (idle u) e = subst (λ s. IsTracked s.ledger i) (answered_store e) t
    by_pass _ (skipping id all new) e =
        subst (λ s. IsTracked s.ledger i) (answered_store e)
          (push-IsTracked store.ledger (new_entry b store id missed now) i t)
    by_pass _ (attempting id request all new) e = cc

reviewed-keeps : (url : Option String) → KeepsId (reviewed url)
reviewed-keeps none e = refl
reviewed-keeps (some url) e = refl

reviewed-track :
    (url : Option String) (e : CampaignEntry) → is_missed (reviewed url e).state ≡ false
reviewed-track none e = refl
reviewed-track (some url) e = refl

Step-IsOnce : (b : Boundary) {c c' : Campaign} → Step b c c' → IsOnce c → IsOnce c'
unfolding finish_tick
Step-IsOnce b {c} (approving digest reviewer now store' done) o =
    IsOnce-same c store' (Tracks-eq _ _ (approve-ledger b c.store digest reviewer now done)) o
Step-IsOnce b {c} (passing now observed text store' done) o =
    IsOnce-same c store'
      (answered-Tracks b c.store now text store' (begin_tick-IsPass b c.store now observed done)) o
Step-IsOnce b {c} (publishing now observed id request store' receipt done) o =
    let (all, new, same) =
      sending-new b c.store now id request store' (begin_tick-IsPass b c.store now observed done) in
    let pushed : Tracks c.store.ledger store'.ledger = λ i t.
      subst (λ l. IsTracked l i) (sym same)
        (push-IsTracked c.store.ledger (new_entry b c.store id dispatching now) i t) in
    let received = λ (i : String) (t : IsTracked store'.ledger i).
      update-IsTracked store'.ledger id (with_receipt receipt) i
        (λ e. (with_receipt-open receipt e).0) (λ e _. (with_receipt-open receipt e).2) t in
    IsOnce-sent c id (finish_tick receipt id store') new (λ i t. received i (pushed i t))
      (received id (subst (λ l. IsTracked l id) (sym same) (new-IsTracked b c.store id now new))) o
Step-IsOnce b {c} (stopping now observed id request store' done) o =
    let (all, new, same) =
      sending-new b c.store now id request store' (begin_tick-IsPass b c.store now observed done) in
    IsOnce-sent c id store' new
      (λ i t.
        subst (λ l. IsTracked l i) (sym same)
          (push-IsTracked c.store.ledger (new_entry b c.store id dispatching now) i t))
      (subst (λ l. IsTracked l id) (sym same) (new-IsTracked b c.store id now new)) o
Step-IsOnce b {c} (recovering id action now request store' receipt done) o =
    let same = begin_recover-ledger b c.store id action done in
    let taken : Tracks c.store.ledger store'.ledger = λ i t.
      subst (λ l. IsTracked l i) (sym same)
        (update-IsTracked c.store.ledger id held i (λ e. refl) (λ e _. refl) t) in
    elim (finish_recover-cases receipt id action now store') [
      | inl still ↦
          subst (λ s. IsOnce (record c { store = s })) (sym still) (IsOnce-same c store' taken o)
      | inr (task, after_task) ↦
          IsOnce-same c (after_recover store' (finish_recover receipt id action now store'))
            (λ i t.
              subst (λ l. IsTracked l i) (sym after_task)
                (update-IsTracked store'.ledger id (with_recovery task) i (λ e. refl) (λ e k. k)
                  (taken i t)))
            o
    ]
Step-IsOnce b {c} (inspecting resumed look id now store' done) o =
    let (e, there, p, which) = inspect-cases b resumed look c.store id now done in
    elim which [
      | inl same ↦ IsOnce-same c store' (Tracks-eq _ _ (sym same)) o
      | inr (url, same) ↦
          IsOnce-same c store'
            (λ i t.
              subst (λ l. IsTracked l i) (sym same)
                (update-IsTracked c.store.ledger id (reviewed url) i (reviewed-keeps url)
                  (λ x _. reviewed-track url x) t))
            o
    ]
Step-IsOnce b {c} (accepting id url reviewer evidence now store' done) o =
    let (e, acceptance, there, state, same) =
      accept_public-cases b c.store id url reviewer evidence now done in
    IsOnce-same c store'
      (λ i t.
        subst (λ l. IsTracked l i) (sym same)
          (update-IsTracked c.store.ledger id (with_acceptance url acceptance) i (λ x. refl)
            (λ x _. refl) t))
      o
Step-IsOnce b {c} (rescheduling slot reviewer now store' done) o =
    let (m, closed_all, same) = reschedule-cases b c.store slot reviewer now done in
    IsOnce-same c store'
      (λ i t. subst (λ l. IsTracked l i) (sym same) (keep-IsTracked c.store.ledger i closed_all t))
      o
Step-IsOnce b {c} (resuming continuation id action proofs attempts request receipt done) o =
    IsOnce-resume b c continuation id action proofs attempts _ (ok request) (id ∷ c.resent) done
      (λ i. resume_count-finish i receipt attempts) (λ i. omega arith) o
Step-IsOnce b {c} (resume_stopping continuation id action proofs attempts request done) o =
    IsOnce-resume b c continuation id action proofs attempts attempts (ok request) (id ∷ c.resent)
      done (λ i. refl) (λ i. omega arith) o
Step-IsOnce b {c} (resume_failing continuation id action proofs attempts request done) o =
    IsOnce-resume b c continuation id action proofs attempts attempts request c.resent done
      (λ i. refl) (λ i. omega arith) o
Step-IsOnce b {c} (editing manifest) o = record {
  tracked = o.tracked;
  distinct = o.distinct;
  recorded = o.recorded;
  few = o.few;
}

-- Over every run of a campaign that has sent nothing, with crashes between an attempt's entry and
-- its receipt, recoveries, reschedules and edits of the manifest, the scheduling passes send a
-- publication once at most, and what they sent stays in the ledger as an attempt that was not
-- missed. An operator's resume and continuation send it again, but not more often than there are
-- records of resumes of it, of which there are two at most.
pub Reach-IsOnce :
    (b : Boundary) {c d : Campaign}
    → c.sent ≡ []
    → c.resent ≡ []
    → c.resumes ≡ []
    → Reach b c d
    → IsOnce d
Reach-IsOnce b {c} empty unsent unresumed here = record {
  tracked = subst (All (IsTracked c.store.ledger)) (sym empty) tt;
  distinct = subst IsDistinct (sym empty) tt;
  recorded = λ id. subst (λ l. count id l ≤ resume_count id c.resumes) (sym unsent) (omega arith);
  few = λ id. subst (λ l. resume_count id l ≤ 2) (sym unresumed) (omega arith);
}
Reach-IsOnce b empty unsent unresumed (next r s) =
    Step-IsOnce b s (Reach-IsOnce b empty unsent unresumed r)
