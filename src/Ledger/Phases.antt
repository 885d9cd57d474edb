-- ===== src/Ledger/Phases.antt =====
-- Phases and identities of publications over runs of the ledger of mobile/src/tiktok-ledger.ts.
use one_autojs.Base.{
  ◌≤◌, ◌≡◌, inl, inr, refl, sym, ap, subst, ◌∙◌, String, Bool, true, false, Option, none, some,
  List, Number, find, put, find-put, str_eq, eq_iff, Bool-cases, some_inj, none≢some, ok, arith,
}
use one_autojs.Ledger.{
  TikTokPublicationPhase, TikTokPublicationOutcome, NewTikTokPublication, TikTokPublicationRecord,
  TikTokLedgerState, phase_order, TikTokLedger,
}
use one_autojs.Ledger.Storage.{persist, open_ledger, loaded, loaded-persist}
use one_autojs.Ledger.Inversion.{
  begin_with-ok, advance_with-ok, set_outcome_with-ok, checkpoint_with-ok,
}
use one_autojs.Ledger.Import.{import_legacy_unverified, import_with}
use one_autojs.Ledger.Checkpoint.{checkpoint, checkpoint_record}
use one_autojs.Ledger.Operations.{
  AdvancePatch, CheckpointPatch, Begun, begin, advance, set_outcome, advanced_record, with_record,
  mark_uses, commit_ledger,
}

abbrev Publications : Type 0
Publications = List (String × TikTokPublicationRecord)

-- Every publication is still there, with its identity, in the same phase or a later one.
pub record Continues (old new : TikTokPublicationRecord) : Type 0 where
  pub phase : phase_order old.phase ≤ phase_order new.phase
  pub input : new.input ≡ old.input

abbrev pub Grows :
    List (String × TikTokPublicationRecord) → List (String × TikTokPublicationRecord) → Type 0
Grows old new =
    (id : String) (r : TikTokPublicationRecord)
    → find id old ≡ some r
    → (r' : TikTokPublicationRecord) × (find id new ≡ some r') × Continues r r'

Grows-refl : (m : Publications) → Grows m m
Grows-refl m id r at = (r, at, record { phase = omega arith; input = refl })

Grows-put :
    (m : Publications) (key : String) (r r' : TikTokPublicationRecord)
    → find key m ≡ some r
    → Continues r r'
    → Grows m (put key r' m)
Grows-put m key r r' at c id x at' = elim (Bool-cases (str_eq key id)) [
  | inl same ↦
      let is_key : key ≡ id = (eq_iff key id).0 same in
      let is_r : r ≡ x = some_inj (sym at ∙ subst (λ k. find k m ≡ some x) (sym is_key) at') in
      (r', rw (find-put, same) refl, subst (λ y. Continues y r') is_r c)
  | inr other ↦ (x, rw (find-put, other) at', record { phase = omega arith; input = refl })
]

Grows-put_new :
    (m : Publications) (key : String) (r' : TikTokPublicationRecord)
    → find key m ≡ none
    → Grows m (put key r' m)
Grows-put_new m key r' gone id x at' = elim (Bool-cases (str_eq key id)) [
  | inl same ↦
      let is_key : key ≡ id = (eq_iff key id).0 same in
      absurd (none≢some (sym gone ∙ subst (λ k. find k m ≡ some x) (sym is_key) at'))
  | inr other ↦ (x, rw (find-put, other) at', record { phase = omega arith; input = refl })
]

-- One successful call of an operation that may change the ledger.
pub data LedgerStep (l l' : TikTokLedger) : Type 0 where
  begun :
      (input : NewTikTokPublication) (now : Number) (b : Begun)
      → begin l input now ≡ ok b
      → b.ledger ≡ l'
      → LedgerStep l l'
  advanced :
      (id : String) (phase : TikTokPublicationPhase) (patch : AdvancePatch) (now : Number)
      (r : TikTokPublicationRecord)
      → advance l id phase patch now ≡ ok (l', r)
      → LedgerStep l l'
  outcome_set :
      (id : String) (o : TikTokPublicationOutcome) (e : Option String) (now : Number)
      (r : TikTokPublicationRecord)
      → set_outcome l id o e now ≡ ok (l', r)
      → LedgerStep l l'
  checkpointed :
      (id : String) (patch : CheckpointPatch) (now : Number) (r : TikTokPublicationRecord)
      → checkpoint l id patch now ≡ ok (l', r)
      → LedgerStep l l'
  imported :
      (materials captions : List (String × Number)) (now : Number)
      → import_legacy_unverified l materials captions now ≡ l'
      → LedgerStep l l'
  reopened : open_ledger l.disk ≡ l' → LedgerStep l l'

-- Memory and the file agree between two calls.
abbrev pub IsSaved : TikTokLedger → Type 0
IsSaved l = loaded l.disk ≡ l.state

-- What an operation on one record leaves.
pub data Effect (l : TikTokLedger) (l' : TikTokLedger) : Type 0 where
  untouched : l ≡ l' → Effect l l'
  stored :
      (s : TikTokLedgerState)
      → commit_ledger l s ≡ l'
      → Grows l.state.publications s.publications
      → Effect l l'

Effect-Grows :
    {l l' : TikTokLedger} → Effect l l' → Grows l.state.publications l'.state.publications
unfolding persist
Effect-Grows {l} (untouched same) =
    subst (λ k. Grows l.state.publications k.state.publications) same (Grows-refl _)
Effect-Grows {l} (stored s same grows) =
    subst (λ k. Grows l.state.publications k.state.publications) same grows

Effect-IsSaved : {l l' : TikTokLedger} → Effect l l' → IsSaved l → IsSaved l'
unfolding persist
Effect-IsSaved (untouched same) saved = subst IsSaved same saved
Effect-IsSaved {l} (stored s same grows) saved =
    subst IsSaved same (loaded-persist (record l { state = s }))

mark_uses-publications :
    (s : TikTokLedgerState) (old : TikTokPublicationRecord) (first : Bool) (now : Number)
    (id : String) (r : TikTokPublicationRecord)
    → put id r s.publications ≡ (with_record (mark_uses s old first now) id r).publications
unfolding mark_uses
mark_uses-publications s old true now id r = refl
mark_uses-publications s old false now id r = refl

begin-Effect :
    (l : TikTokLedger) (input : NewTikTokPublication) (now : Number) (b : Begun)
    → begin l input now ≡ ok b
    → Effect l b.ledger
unfolding begin
begin-Effect l input now b h =
    elim (begin_with-ok l input now (find input.publication_id l.state.publications) h) [
      | inl (same, _, _, _) ↦ untouched same
      | inr (gone, made) ↦
          stored _ (ap (λ (x : Begun). x.ledger) (sym made))
            (Grows-put_new l.state.publications _ _ gone)
    ]

advance-Effect :
    (l : TikTokLedger) (id : String) (phase : TikTokPublicationPhase) (patch : AdvancePatch)
    (now : Number) {l' : TikTokLedger} {r : TikTokPublicationRecord}
    → advance l id phase patch now ≡ ok (l', r)
    → Effect l l'
unfolding advance advanced_record
advance-Effect l id phase patch now h =
    let (old, at, forward, same, _) =
      advance_with-ok l id phase patch now (find id l.state.publications) h in
    stored _ same (
      subst (Grows l.state.publications) (mark_uses-publications l.state old _ now id _)
        (Grows-put l.state.publications id old _ at (record { phase = forward; input = refl })))

set_outcome-Effect :
    (l : TikTokLedger) (id : String) (o : TikTokPublicationOutcome) (e : Option String)
    (now : Number) {l' : TikTokLedger} {r : TikTokPublicationRecord}
    → set_outcome l id o e now ≡ ok (l', r)
    → Effect l l'
unfolding set_outcome
set_outcome-Effect l id o e now h =
    let (old, at, same) = set_outcome_with-ok l id o e now (find id l.state.publications) h in
    stored _ same
      (Grows-put l.state.publications id old _ at (record { phase = omega arith; input = refl }))

checkpoint-Effect :
    (l : TikTokLedger) (id : String) (patch : CheckpointPatch) (now : Number) {l' : TikTokLedger}
    {r : TikTokPublicationRecord}
    → checkpoint l id patch now ≡ ok (l', r)
    → Effect l l'
unfolding checkpoint checkpoint_record
checkpoint-Effect l id patch now h =
    let (old, at, same) = checkpoint_with-ok l id patch now (find id l.state.publications) h in
    stored _ same
      (Grows-put l.state.publications id old _ at (record { phase = omega arith; input = refl }))

import_with-Effect :
    (l : TikTokLedger) (materials captions : List (String × Number)) (now : Number)
    (o : Option Number)
    → Effect l (import_with l materials captions now o)
unfolding import_with
import_with-Effect l materials captions now (some t) = untouched refl
import_with-Effect l materials captions now none = stored _ refl (Grows-refl l.state.publications)

LedgerStep-Effect : {l l' : TikTokLedger} → IsSaved l → LedgerStep l l' → Effect l l'
unfolding import_legacy_unverified open_ledger
LedgerStep-Effect {l} saved (begun input now b h same) =
    subst (Effect l) same (begin-Effect l input now b h)
LedgerStep-Effect {l} saved (advanced id phase patch now r h) =
    advance-Effect l id phase patch now h
LedgerStep-Effect {l} saved (outcome_set id o e now r h) = set_outcome-Effect l id o e now h
LedgerStep-Effect {l} saved (checkpointed id patch now r h) = checkpoint-Effect l id patch now h
LedgerStep-Effect {l} saved (imported materials captions now same) =
    subst (Effect l) same (import_with-Effect l materials captions now l.state.legacy_import)
LedgerStep-Effect {l} saved (reopened same) =
    untouched ((λ i. record { state = sym saved i; disk = l.disk }) ∙ same)

-- Any run of successful operations, with restarts of the process between them.
pub data LedgerRun (l : TikTokLedger) : TikTokLedger → Type 0 where
  here : LedgerRun l l
  next : {m n : TikTokLedger} → LedgerRun l m → LedgerStep m n → LedgerRun l n

Grows-trans : (a b c : Publications) → Grows a b → Grows b c → Grows a c
Grows-trans a b c g h id r at =
    let (r1, at1, c1) = g id r at in
    let (r2, at2, c2) = h id r1 at1 in
    (r2, at2, record { phase = omega (arith, c1.phase, c2.phase); input = c2.input ∙ c1.input })

-- Over any run of operations and restarts, starting from a ledger that its file holds, no publication is lost, its identity never
-- changes, its phase never goes back, and the file holds the ledger again.
pub LedgerRun-Grows :
    {l l' : TikTokLedger}
    → IsSaved l
    → LedgerRun l l'
    → Grows l.state.publications l'.state.publications × IsSaved l'
LedgerRun-Grows {l} saved here = (Grows-refl l.state.publications, saved)
LedgerRun-Grows saved (next run step) =
    let (grows, saved') = LedgerRun-Grows saved run in
    let effect = LedgerStep-Effect saved' step in
    (Grows-trans _ _ _ grows (Effect-Grows effect), Effect-IsSaved effect saved')
