-- ===== src/Campaign/Find.antt =====
-- Finding an entry by its publication after a change of the ledger.
use one_autojs.Base.{
  ◌≡◌, ◌⊎◌, refl, sym, ap, subst, ◌∙◌, String, true, false, List, [], ◌∷◌, ◌++◌, none, some,
  some_inj, none≢some, if_true, if_false, str_eq, eq_refl, if◌then◌else◌, Bool-cases, inl, inr,
}
use one_autojs.Campaign.{CampaignEntry}
use one_autojs.Campaign.Operations.{is_accepted, find_entry, update_entry}
use one_autojs.Campaign.Reschedule.{keep_accepted}
use one_autojs.Campaign.Line.{KeepsId}

find_entry-nil : (id : String) → find_entry id [] ≡ none
unfolding find_entry
find_entry-nil id = refl

pub find_entry-head :
    (id : String) (x : CampaignEntry) (rest : List CampaignEntry)
    → str_eq x.publication_id id ≡ true
    → find_entry id (x ∷ rest) ≡ some x
unfolding find_entry
find_entry-head id x rest h = ap (λ b. if b then some x else find_entry id rest) h

pub find_entry-tail :
    (id : String) (x : CampaignEntry) (rest : List CampaignEntry)
    → str_eq x.publication_id id ≡ false
    → find_entry id (x ∷ rest) ≡ find_entry id rest
unfolding find_entry
find_entry-tail id x rest h = ap (λ b. if b then some x else find_entry id rest) h

update_entry-head :
    (id : String) (change : CampaignEntry → CampaignEntry) (x : CampaignEntry)
    (rest : List CampaignEntry)
    → str_eq x.publication_id id ≡ true
    → update_entry id change (x ∷ rest) ≡ change x ∷ rest
unfolding update_entry
update_entry-head id change x rest h =
    ap (λ b. if b then change x ∷ rest else x ∷ update_entry id change rest) h

update_entry-tail :
    (id : String) (change : CampaignEntry → CampaignEntry) (x : CampaignEntry)
    (rest : List CampaignEntry)
    → str_eq x.publication_id id ≡ false
    → update_entry id change (x ∷ rest) ≡ x ∷ update_entry id change rest
unfolding update_entry
update_entry-tail id change x rest h =
    ap (λ b. if b then change x ∷ rest else x ∷ update_entry id change rest) h

pub find_entry-update_self :
    (ledger : List CampaignEntry) (id : String) (change : CampaignEntry → CampaignEntry)
    (e : CampaignEntry)
    → KeepsId change
    → find_entry id ledger ≡ some e
    → find_entry id (update_entry id change ledger) ≡ some (change e)
find_entry-update_self [] id change e keeps h = absurd (none≢some (sym (find_entry-nil id) ∙ h))
find_entry-update_self (x ∷ rest) id change e keeps h =
    elim (Bool-cases (str_eq x.publication_id id)) [
      | inl hit ↦
          ap (find_entry id) (update_entry-head id change x rest hit)
          ∙ find_entry-head id (change x) rest (ap (λ k. str_eq k id) (keeps x) ∙ hit)
          ∙ ap (λ o. elim o [ none ↦ none | some y ↦ some (change y) ])
              (sym (find_entry-head id x rest hit) ∙ h)
      | inr miss ↦
          ap (find_entry id) (update_entry-tail id change x rest miss)
          ∙ find_entry-tail id x (update_entry id change rest) miss
          ∙ find_entry-update_self rest id change e keeps (sym (find_entry-tail id x rest miss) ∙ h)
    ]

-- What is found after a change is what was found before, or its changed version.
pub find_entry-update :
    (ledger : List CampaignEntry) (id i : String) (change : CampaignEntry → CampaignEntry)
    {e : CampaignEntry}
    → KeepsId change
    → find_entry i ledger ≡ some e
    → (e' : CampaignEntry) × (find_entry i (update_entry id change ledger) ≡ some e')
      × ((e' ≡ e) ⊎ ((e' ≡ change e) × (find_entry id ledger ≡ some e)))
find_entry-update [] id i change keeps h = absurd (none≢some (sym (find_entry-nil i) ∙ h))
find_entry-update (x ∷ rest) id i change {e} keeps h =
    elim (Bool-cases (str_eq x.publication_id i)) [
      | inl this ↦
          let same : x ≡ e = some_inj (sym (find_entry-head i x rest this) ∙ h) in
          elim (Bool-cases (str_eq x.publication_id id)) [
            | inl hit ↦ (
              change x,
              ap (find_entry i) (update_entry-head id change x rest hit)
                  ∙ find_entry-head i (change x) rest (ap (λ k. str_eq k i) (keeps x) ∙ this),
              inr (ap change same, find_entry-head id x rest hit ∙ ap some same),
            )
            | inr miss ↦ (
              x,
              ap (find_entry i) (update_entry-tail id change x rest miss)
                  ∙ find_entry-head i x (update_entry id change rest) this,
              inl same,
            )
          ]
      | inr that ↦
          let later : find_entry i rest ≡ some e = sym (find_entry-tail i x rest that) ∙ h in
          elim (Bool-cases (str_eq x.publication_id id)) [
            | inl hit ↦ (
              e,
              ap (find_entry i) (update_entry-head id change x rest hit)
                  ∙ find_entry-tail i (change x) rest (ap (λ k. str_eq k i) (keeps x) ∙ that)
                  ∙ later,
              inl refl,
            )
            | inr miss ↦
                let (e', found, which) = find_entry-update rest id i change keeps later in
                (
                  e',
                  ap (find_entry i) (update_entry-tail id change x rest miss)
                      ∙ find_entry-tail i x (update_entry id change rest) that
                      ∙ found,
                  elim which [
                    | inl same ↦ inl same
                    | inr (same, there) ↦ inr (same, find_entry-tail id x rest miss ∙ there)
                  ],
                )
          ]
    ]

pub find_entry-push :
    (ledger : List CampaignEntry) (i : String) (new : CampaignEntry) {e : CampaignEntry}
    → find_entry i ledger ≡ some e
    → find_entry i (ledger ++ new ∷ []) ≡ some e
unfolding find_entry
find_entry-push [] i new h = absurd (none≢some h)
find_entry-push (x ∷ rest) i new {e} h = elim (Bool-cases (str_eq x.publication_id i)) [
  | inl this ↦ rw this (if_true _ _ this h)
  | inr that ↦ rw that (find_entry-push rest i new (if_false _ _ that h))
]

pub find_entry-push_self :
    (ledger : List CampaignEntry) (new : CampaignEntry)
    → find_entry new.publication_id ledger ≡ none
    → find_entry new.publication_id (ledger ++ new ∷ []) ≡ some new
find_entry-push_self [] new h =
    find_entry-head new.publication_id new [] (eq_refl new.publication_id)
find_entry-push_self (x ∷ rest) new h =
    elim (Bool-cases (str_eq x.publication_id new.publication_id)) [
      | inl this ↦ absurd (none≢some (sym h ∙ find_entry-head new.publication_id x rest this))
      | inr that ↦
          find_entry-tail new.publication_id x (rest ++ new ∷ []) that
          ∙ find_entry-push_self rest new (sym (find_entry-tail new.publication_id x rest that) ∙ h)
    ]

-- An accepted entry is kept.
pub find_entry-keep :
    (ledger : List CampaignEntry) (i : String) {e : CampaignEntry}
    → find_entry i ledger ≡ some e
    → is_accepted e.state ≡ true
    → find_entry i (keep_accepted ledger) ≡ some e
unfolding find_entry keep_accepted
find_entry-keep [] i h a = absurd (none≢some h)
find_entry-keep (x ∷ rest) i {e} h a = elim (Bool-cases (str_eq x.publication_id i)) [
  | inl this ↦
      let same : x ≡ e = some_inj (if_true _ _ this h) in
      let kept : is_accepted x.state ≡ true =
        subst (λ y. is_accepted y.state ≡ true) (sym same) a in
      rw (kept, this) (ap some same)
  | inr that ↦ elim (Bool-cases (is_accepted x.state)) [
    | inl kept ↦ rw (kept, that) (find_entry-keep rest i (if_false _ _ that h) a)
    | inr dropped ↦ rw dropped (find_entry-keep rest i (if_false _ _ that h) a)
  ]
]
