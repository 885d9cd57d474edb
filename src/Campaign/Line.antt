-- ===== src/Campaign/Line.antt =====
-- The ledger of a campaign as a line of accepted attempts with at most one open attempt at its end.
use one_autojs.Base.{
  ◌≡◌, refl, sym, ap, subst, ◌∙◌, String, Bool, true, false, ◌&&◌, List, [], ◌∷◌, ◌++◌, Option,
  none, some, some_inj, none≢some, if_true, if_false, str_eq, eq_iff, if◌then◌else◌, Bool-cases,
  inl, inr, false≢true,
}
use one_autojs.Campaign.{EntryState, review_required, missed, CampaignEntry}
use one_autojs.Campaign.Operations.{is_accepted, all_accepted, find_entry, update_entry}

-- The progress of a campaign: the publications that are settled, in order, and the one that is
-- open.
pub data Phase : Type 0 where
  skipped unresolved reviewing : Phase

abbrev pub Progress : Type 0
Progress = List String × Option (String × Phase)

abbrev pub phase_of : EntryState → Phase
phase_of missed = skipped
phase_of review_required = reviewing
phase_of _ = unresolved

abbrev pub after_settled : String → Progress → Progress
after_settled id (settled, current) = (id ∷ settled, current)

unfoldable pub view : List CampaignEntry → Progress
view [] = ([], none)
view (e ∷ rest) =
    if is_accepted e.state
    then after_settled e.publication_id (view rest)
    else ([], some (e.publication_id, phase_of e.state))

abbrev pub ids_of : List CampaignEntry → List String
ids_of [] = []
ids_of (e ∷ rest) = e.publication_id ∷ ids_of rest

pub data IsLine (ledger : List CampaignEntry) : Type 0 where
  closed : all_accepted ledger ≡ true → IsLine ledger
  ending :
      (before : List CampaignEntry) (e : CampaignEntry)
      → all_accepted before ≡ true
      → is_accepted e.state ≡ false
      → ledger ≡ before ++ e ∷ []
      → IsLine ledger

-- A change of an entry that is not its id.
abbrev pub KeepsId : (CampaignEntry → CampaignEntry) → Type 0
KeepsId change = (e : CampaignEntry) → (change e).publication_id ≡ e.publication_id

and_true : (a b : Bool) → (a && b) ≡ true → (a ≡ true) × (b ≡ true)
and_true true b h = (refl, h)
and_true false b h = cc

pub view-all_accepted :
    (ledger : List CampaignEntry) → all_accepted ledger ≡ true → view ledger ≡ (ids_of ledger, none)
unfolding view all_accepted
view-all_accepted [] h = refl
view-all_accepted (e ∷ rest) h =
    let (a, r) = and_true (is_accepted e.state) (all_accepted rest) h in
    rw a (ap (after_settled e.publication_id) (view-all_accepted rest r))

pub view-push :
    (ledger : List CampaignEntry) (e : CampaignEntry)
    → all_accepted ledger ≡ true
    → is_accepted e.state ≡ false
    → view (ledger ++ e ∷ []) ≡ (ids_of ledger, some (e.publication_id, phase_of e.state))
unfolding view all_accepted
view-push [] e h n = rw n
view-push (f ∷ rest) e h n =
    let (a, r) = and_true (is_accepted f.state) (all_accepted rest) h in
    rw a (ap (after_settled f.publication_id) (view-push rest e r n))

pub all_accepted-push :
    (ledger : List CampaignEntry) (e : CampaignEntry)
    → all_accepted ledger ≡ true
    → is_accepted e.state ≡ true
    → all_accepted (ledger ++ e ∷ []) ≡ true
unfolding all_accepted
all_accepted-push [] e h a = rw a
all_accepted-push (f ∷ rest) e h a =
    let (b, r) = and_true (is_accepted f.state) (all_accepted rest) h in
    rw b (all_accepted-push rest e r a)

pub ids_of-push :
    (ledger : List CampaignEntry) (e : CampaignEntry)
    → ids_of (ledger ++ e ∷ []) ≡ ids_of ledger ++ e.publication_id ∷ []
ids_of-push [] e = refl
ids_of-push (f ∷ rest) e = ap (λ ids. f.publication_id ∷ ids) (ids_of-push rest e)

-- An entry that is not accepted is the last one of a line.
pub find_entry-last :
    (before : List CampaignEntry) (last : CampaignEntry) (id : String) (e : CampaignEntry)
    → all_accepted before ≡ true
    → find_entry id (before ++ last ∷ []) ≡ some e
    → is_accepted e.state ≡ false
    → (find_entry id before ≡ none) × (last ≡ e) × (last.publication_id ≡ id)
unfolding find_entry all_accepted
find_entry-last [] last id e h found n = elim (Bool-cases (str_eq last.publication_id id)) [
  | inl same ↦ (refl, some_inj (if_true _ _ same found), (eq_iff last.publication_id id).0 same)
  | inr other ↦ absurd (none≢some (if_false _ _ other found))
]
find_entry-last (f ∷ rest) last id e h found n =
    let (a, r) = and_true (is_accepted f.state) (all_accepted rest) h in
    elim (Bool-cases (str_eq f.publication_id id)) [
      | inl same ↦ absurd (
          false≢true
            (sym n ∙ ap (λ x. is_accepted x.state) (sym (some_inj (if_true _ _ same found))) ∙ a))
      | inr other ↦ rw other (find_entry-last rest last id e r (if_false _ _ other found) n)
    ]

pub update_entry-last :
    (before : List CampaignEntry) (last : CampaignEntry) (id : String)
    (change : CampaignEntry → CampaignEntry)
    → find_entry id before ≡ none
    → last.publication_id ≡ id
    → update_entry id change (before ++ last ∷ []) ≡ before ++ change last ∷ []
unfolding update_entry find_entry
update_entry-last [] last id change absent same =
    if_true_eq ((eq_iff last.publication_id id).1 same)
  where
    if_true_eq :
        str_eq last.publication_id id ≡ true
        → (if str_eq last.publication_id id then change last ∷ [] else last ∷ []) ≡ change last ∷ []
    if_true_eq e = rw e
update_entry-last (f ∷ rest) last id change absent same =
    elim (Bool-cases (str_eq f.publication_id id)) [
      | inl there ↦ absurd (none≢some (sym (if_true _ _ there absent)))
      | inr other ↦
          rw other (
            ap (λ l. f ∷ l)
              (update_entry-last rest last id change (if_false _ _ other absent) same))
    ]

find_entry-accepted :
    (ledger : List CampaignEntry) (id : String) (e : CampaignEntry)
    → all_accepted ledger ≡ true
    → find_entry id ledger ≡ some e
    → is_accepted e.state ≡ true
unfolding find_entry all_accepted
find_entry-accepted [] id e h found = absurd (none≢some found)
find_entry-accepted (f ∷ rest) id e h found =
    let (a, r) = and_true (is_accepted f.state) (all_accepted rest) h in
    elim (Bool-cases (str_eq f.publication_id id)) [
      | inl same ↦ subst (λ x. is_accepted x.state ≡ true) (some_inj (if_true _ _ same found)) a
      | inr other ↦ find_entry-accepted rest id e r (if_false _ _ other found)
    ]

-- Changing an entry that is not accepted is changing the last one.
pub update_entry-ending :
    (ledger : List CampaignEntry) (id : String) (change : CampaignEntry → CampaignEntry)
    (e : CampaignEntry)
    → IsLine ledger
    → find_entry id ledger ≡ some e
    → is_accepted e.state ≡ false
    → (before : List CampaignEntry) × (all_accepted before ≡ true)
      × (e.publication_id ≡ id)
      × (ledger ≡ before ++ e ∷ [])
      × (update_entry id change ledger ≡ before ++ change e ∷ [])
update_entry-ending ledger id change e (closed h) found n =
    absurd (false≢true (sym n ∙ accepted_of ledger h found))
  where
    accepted_of :
        (l : List CampaignEntry)
        → all_accepted l ≡ true
        → find_entry id l ≡ some e
        → is_accepted e.state ≡ true
    accepted_of l a f = find_entry-accepted l id e a f
update_entry-ending ledger id change e (ending before last h m shape) found n =
    let (absent, same, named) =
      find_entry-last before last id e h (subst (λ l. find_entry id l ≡ some e) shape found) n in
    (
      before,
      h,
      subst (λ x. x.publication_id ≡ id) same named,
      subst (λ x. ledger ≡ before ++ x ∷ []) same shape,
      ap (update_entry id change) shape
          ∙ update_entry-last before last id change absent named
          ∙ ap (λ x. before ++ change x ∷ []) same,
    )
