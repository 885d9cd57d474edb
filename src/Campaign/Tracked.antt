-- ===== src/Campaign/Tracked.antt =====
-- The entries that a ledger holds of a publication that was sent, over changes of the ledger.
use one_autojs.Base.{
  ℕ, ◌≡◌, ◌≢◌, refl, sym, ap, subst, ◌∙◌, String, true, false, ◌||◌, List, [], ◌∷◌, ◌++◌, none,
  some, some_inj, none≢some, if_true, if_false, str_eq, Bool-cases, inl, inr, All,
}
use one_autojs.Campaign.{dispatching, CampaignEntry, Store, Boundary}
use one_autojs.Campaign.Operations.{is_accepted, is_missed, find_entry, update_entry, new_entry}
use one_autojs.Campaign.Reschedule.{all_closed, keep_accepted}
use one_autojs.Campaign.Line.{KeepsId}
use one_autojs.Campaign.Find.{
  find_entry-update, find_entry-push, find_entry-push_self, find_entry-keep,
}
use one_autojs.Campaign.Replan.{and_both}

-- The ledger has an attempt of the publication, and not as one that was missed.
abbrev pub IsTracked : List CampaignEntry → String → Type 0
IsTracked ledger id =
    (e : CampaignEntry) × (find_entry id ledger ≡ some e) × (is_missed e.state ≡ false)

abbrev pub IsDistinct : List String → Type 0
IsDistinct [] = Unit
IsDistinct (x ∷ xs) = All (λ y. x ≢ y) xs × IsDistinct xs

-- A change that makes no attempt a missed one.
abbrev KeepsTrack : (CampaignEntry → CampaignEntry) → Type 0
KeepsTrack change =
    (e : CampaignEntry) → is_missed e.state ≡ false → is_missed (change e).state ≡ false

pub update-IsTracked :
    (ledger : List CampaignEntry) (id : String) (change : CampaignEntry → CampaignEntry)
    (i : String)
    → KeepsId change
    → KeepsTrack change
    → IsTracked ledger i
    → IsTracked (update_entry id change ledger) i
update-IsTracked ledger id change i keeps track (e, found, there) =
    let (e', found', which) = find_entry-update ledger id i change keeps found in
    (
      e',
      found',
      elim which [
        | inl same ↦ subst (λ x. is_missed x.state ≡ false) (sym same) there
        | inr (same, _) ↦ subst (λ x. is_missed x.state ≡ false) (sym same) (track e there)
      ],
    )

pub push-IsTracked :
    (ledger : List CampaignEntry) (new : CampaignEntry) (i : String)
    → IsTracked ledger i
    → IsTracked (ledger ++ new ∷ []) i
push-IsTracked ledger new i (e, found, there) = (e, find_entry-push ledger i new found, there)

all_closed-find :
    (ledger : List CampaignEntry) (i : String) (e : CampaignEntry)
    → all_closed ledger ≡ true
    → find_entry i ledger ≡ some e
    → (is_missed e.state || is_accepted e.state) ≡ true
unfolding all_closed find_entry
all_closed-find [] i e h found = absurd (none≢some found)
all_closed-find (x ∷ rest) i e h found =
    let (a, r) = and_both (is_missed x.state || is_accepted x.state) (all_closed rest) h in
    elim (Bool-cases (str_eq x.publication_id i)) [
      | inl this ↦
          subst (λ y. (is_missed y.state || is_accepted y.state) ≡ true)
            (some_inj (if_true _ _ this found)) a
      | inr that ↦ all_closed-find rest i e r (if_false _ _ that found)
    ]

pub keep-IsTracked :
    (ledger : List CampaignEntry) (i : String)
    → all_closed ledger ≡ true
    → IsTracked ledger i
    → IsTracked (keep_accepted ledger) i
keep-IsTracked ledger i h (e, found, there) =
    let kept =
      ap (λ b. b || is_accepted e.state) (sym there) ∙ all_closed-find ledger i e h found in
    (e, find_entry-keep ledger i found kept, there)

-- A publication that is not in the ledger is none of those that are tracked.
pub untracked-apart :
    (ledger : List CampaignEntry) (id : String)
    → find_entry id ledger ≡ none
    → (i : String) → IsTracked ledger i
    → id ≢ i
untracked-apart ledger id new i (e, found, _) same =
    none≢some (sym new ∙ ap (λ k. find_entry k ledger) same ∙ found)

pub new-IsTracked :
    (b : Boundary) (store : Store) (id : String) (now : ℕ)
    → find_entry id store.ledger ≡ none
    → IsTracked (store.ledger ++ new_entry b store id dispatching now ∷ []) id
unfolding new_entry
new-IsTracked b store id now new = (
  new_entry b store id dispatching now,
  find_entry-push_self store.ledger (new_entry b store id dispatching now) new,
  refl,
)

-- The ledger of one moment tracks what the ledger of another tracked.
abbrev pub Tracks : List CampaignEntry → List CampaignEntry → Type 0
Tracks from to = (i : String) → IsTracked from i → IsTracked to i

pub Tracks-eq : (from to : List CampaignEntry) → from ≡ to → Tracks from to
Tracks-eq from to e i t = subst (λ l. IsTracked l i) e t
