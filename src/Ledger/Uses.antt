-- ===== src/Ledger/Uses.antt =====
-- The recorded uses of materials and captions, and the beginning of a publication, in the ledger
-- of mobile/src/tiktok-ledger.ts.
use one_autojs.Base.{
  ◌≤◌, ◌≡◌, ◌≢◌, inl, inr, refl, sym, subst, ◌∙◌, String, Bool, true, false, Option, none, some,
  List, [], ◌∷◌, Number, find, put, find-put, find-put_self, str_eq, Bool-cases, some_inj,
  none≢some, if◌then◌else◌, ok, throw, arith, is_sha256, is_finite, ◌&&◌,
}
use one_autojs.Ledger.{
  TikTokPublicationPhase, NewTikTokPublication, TikTokPublicationRecord, TikTokLedgerState,
  phase_order, TikTokLedger,
}
use one_autojs.Ledger.Storage.{persist, open_ledger}
use one_autojs.Ledger.Inversion.{
  begin_with-ok, advance_with-ok, set_outcome_with-ok, checkpoint_with-ok,
}
use one_autojs.Ledger.Import.{import_legacy_unverified, import_with, import_uses}
use one_autojs.Ledger.Checkpoint.{checkpoint, checkpoint_record}
use one_autojs.Ledger.Operations.{
  AdvancePatch, Begun, begin, begin_with, advance, set_outcome, advanced_record, with_record,
  mark_uses, crosses, new_record,
}
use one_autojs.Ledger.Phases.{
  LedgerStep, begun, advanced, outcome_set, checkpointed, imported, reopened, IsSaved, LedgerRun,
  here, next, LedgerRun-Grows,
}

abbrev Has : String → List (String × Number) → Type 0
Has key uses = find key uses ≢ none

Has-put :
    (key k : String) (v : Number) (uses : List (String × Number))
    → Has key uses
    → Has key (put k v uses)
Has-put key k v uses h = elim (Bool-cases (str_eq k key)) [
  | inl same ↦ rw (find-put, same) (λ e. none≢some (sym e))
  | inr other ↦ rw (find-put, other) h
]

Has-put_self :
    (key : String) (v : Number) (uses : List (String × Number)) → Has key (put key v uses)
Has-put_self key v uses e = none≢some (sym e ∙ find-put_self key v uses)

-- The uses of a publication that is past its commit.
abbrev pub Marked : TikTokLedgerState → TikTokPublicationRecord → Type 0
Marked s r =
    2 ≤ phase_order r.phase
    → (find r.input.media.fingerprint s.material_uses ≢ none)
      × (find r.input.caption.fingerprint s.caption_uses ≢ none)

abbrev pub HasUses : TikTokLedgerState → Type 0
HasUses s =
    (id : String) (r : TikTokPublicationRecord) → find id s.publications ≡ some r → Marked s r

-- A state whose uses grew from another's.
record Raises (s s' : TikTokLedgerState) : Type 0 where
  material : (key : String) → Has key s.material_uses → Has key s'.material_uses
  caption : (key : String) → Has key s.caption_uses → Has key s'.caption_uses
  same : s.publications ≡ s'.publications

Marked-Raises :
    {s s' : TikTokLedgerState} (r : TikTokPublicationRecord)
    → Raises s s'
    → Marked s r
    → Marked s' r
Marked-Raises r raises m late = let (a, b) = m late in (raises.material _ a, raises.caption _ b)

HasUses-with_record :
    (s s' : TikTokLedgerState) (id : String) (r : TikTokPublicationRecord)
    → Raises s s'
    → HasUses s
    → Marked s' r
    → HasUses (with_record s' id r)
HasUses-with_record s s' id r raises has m key x at = elim (Bool-cases (str_eq id key)) [
  | inl equal ↦ subst (Marked s') (some_inj (rw (find-put, equal) at at)) m
  | inr other ↦
      Marked-Raises x raises (
        has key x (subst (λ p. find key p ≡ some x) (sym raises.same) (rw (find-put, other) at at)))
]

mark_uses-Raises :
    (s : TikTokLedgerState) (r : TikTokPublicationRecord) (first : Bool) (now : Number)
    → Raises s (mark_uses s r first now)
unfolding mark_uses
mark_uses-Raises s r true now = record {
  material = λ key h. Has-put key _ now s.material_uses h;
  caption = λ key h. Has-put key _ now s.caption_uses h;
  same = refl;
}
mark_uses-Raises s r false now = record { material = λ key h. h; caption = λ key h. h; same = refl }

-- The advanced record is marked, by this step or by an earlier one.
advanced-Marked :
    (s : TikTokLedgerState) (r : TikTokPublicationRecord) (phase : TikTokPublicationPhase)
    (patch : AdvancePatch) (now : Number)
    → Marked s r
    → Marked (mark_uses s r (crosses 2 r.phase phase) now) (advanced_record r phase patch now)
unfolding mark_uses advanced_record
advanced-Marked s r phase patch now m late = elim (Bool-cases (crosses 2 r.phase phase)) [
  | inl first ↦ rw first (Has-put_self _ now s.material_uses, Has-put_self _ now s.caption_uses)
  | inr before ↦ rw before (m (ground arith))
]

import_uses-Has :
    (entries uses : List (String × Number)) (key : String)
    → Has key uses
    → Has key (import_uses entries uses)
unfolding import_uses
import_uses-Has [] uses key h = h
import_uses-Has ((fingerprint, used_at) ∷ entries) uses key h =
    import_uses-Has entries _ key (kept (is_sha256 fingerprint && is_finite used_at) _)
  where
    kept : (b : Bool) (v : Number) → Has key (if b then put fingerprint v uses else uses)
    kept true v = Has-put key fingerprint v uses h
    kept false v = h

import_with-HasUses :
    (l : TikTokLedger) (materials captions : List (String × Number)) (now : Number)
    (o : Option Number)
    → HasUses l.state
    → HasUses (import_with l materials captions now o).state
unfolding import_with persist
import_with-HasUses l materials captions now (some t) has = has
import_with-HasUses l materials captions now none has = λ id r at.
    Marked-Raises {s = l.state} {s' = (import_with l materials captions now none).state} r
      (record {
        material = import_uses-Has materials l.state.material_uses;
        caption = import_uses-Has captions l.state.caption_uses;
        same = refl;
      })
      (has id r at)

same-Raises : (s : TikTokLedgerState) → Raises s s
same-Raises s = record { material = λ key h. h; caption = λ key h. h; same = refl }

LedgerStep-HasUses :
    {l l' : TikTokLedger} → IsSaved l → LedgerStep l l' → HasUses l.state → HasUses l'.state
unfolding begin advance set_outcome checkpoint checkpoint_record import_legacy_unverified
    open_ledger persist
LedgerStep-HasUses {l} saved (begun input now b h same) has =
    subst (λ (k : TikTokLedger). HasUses k.state) same
      (elim (begin_with-ok l input now (find input.publication_id l.state.publications) h) [
        | inl (old, _, _, _) ↦ subst (λ (k : TikTokLedger). HasUses k.state) old has
        | inr (gone, made) ↦
            subst (λ (x : Begun). HasUses x.ledger.state) (sym made)
              (HasUses-with_record l.state l.state input.publication_id (new_record input now)
                (same-Raises l.state) has (λ late. absurd (omega arith)))
      ])
LedgerStep-HasUses {l} saved (advanced id phase patch now r h) has =
    let (old, at, forward, same, _) =
      advance_with-ok l id phase patch now (find id l.state.publications) h in
    subst (λ (k : TikTokLedger). HasUses k.state) same
      (HasUses-with_record l.state _ id _ (mark_uses-Raises l.state old _ now) has
        (advanced-Marked l.state old phase patch now (has id old at)))
LedgerStep-HasUses {l} saved (outcome_set id o e now r h) has =
    let (old, at, same) = set_outcome_with-ok l id o e now (find id l.state.publications) h in
    subst (λ (k : TikTokLedger). HasUses k.state) same
      (HasUses-with_record l.state l.state id _ (same-Raises l.state) has (has id old at))
LedgerStep-HasUses {l} saved (checkpointed id patch now r h) has =
    let (old, at, same) = checkpoint_with-ok l id patch now (find id l.state.publications) h in
    subst (λ (k : TikTokLedger). HasUses k.state) same
      (HasUses-with_record l.state l.state id _ (same-Raises l.state) has (has id old at))
LedgerStep-HasUses {l} saved (imported materials captions now same) has =
    subst (λ (k : TikTokLedger). HasUses k.state) same
      (import_with-HasUses l materials captions now l.state.legacy_import has)
LedgerStep-HasUses {l} saved (reopened same) has =
    subst (λ (k : TikTokLedger). HasUses k.state) same (subst HasUses (sym saved) has)

-- From a saved ledger in which the material and the caption of each publication that has reached
-- COMMITTING are recorded as used, such as an empty one, every run of operations and restarts leads
-- to a ledger in which they are.
pub LedgerRun-HasUses :
    {l l' : TikTokLedger} → IsSaved l → HasUses l.state → LedgerRun l l' → HasUses l'.state
LedgerRun-HasUses saved has here = has
LedgerRun-HasUses saved has (next run step) =
    LedgerStep-HasUses (LedgerRun-Grows saved run).1 step (LedgerRun-HasUses saved has run)

begin_again :
    (l : TikTokLedger) (input : NewTikTokPublication) (now now' : Number) (b : Begun)
    → begin l input now ≡ ok b
    → (find input.publication_id b.ledger.state.publications ≡ some b.publication)
      × (b.publication.input.request_fingerprint ≡ input.request_fingerprint)
unfolding begin persist
begin_again l input now now' b h =
    elim (begin_with-ok l input now (find input.publication_id l.state.publications) h) [
      | inl (same, found, fingerprint, _) ↦ (
        subst
            (λ (k : TikTokLedger).
              find input.publication_id k.state.publications ≡ some b.publication)
            same found,
        fingerprint,
      )
      | inr (gone, made) ↦
          subst
            (λ (x : Begun).
              (find input.publication_id x.ledger.state.publications ≡ some x.publication)
              × (x.publication.input.request_fingerprint ≡ input.request_fingerprint))
            (sym made)
            (find-put_self input.publication_id (new_record input now) l.state.publications, refl)
    ]

-- After a publication is begun, a request with its id and fingerprint gets the same publication and
-- changes nothing; one with its id and another fingerprint is refused.
pub begin-begin :
    (l : TikTokLedger) (input other : NewTikTokPublication) (now now' : Number) (b : Begun)
    → begin l input now ≡ ok b
    → other.publication_id ≡ input.publication_id
    → begin b.ledger other now' ≡ (
        if str_eq input.request_fingerprint other.request_fingerprint
        then ok (record { ledger = b.ledger; publication = b.publication; created = false })
        else throw "PUBLICATION_ID_CONFLICT")
unfolding begin
begin-begin l input other now now' b h id =
    let (found, fingerprint) = begin_again l input now now' b h in
    rw (id, found, begin_with, fingerprint) refl
