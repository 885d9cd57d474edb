-- ===== src/Ledger/Inversion.antt =====
-- What a successful operation of the ledger did.
use one_autojs.Base.{
  ◌≤◌, ◌≡◌, refl, sym, ap, String, true, false, Option, none, some, Number, str_eq, eq_iff,
  Bool-cases, ok, arith, ltb, ok-injective, throw≢ok, ◌∙◌, ◌⊎◌, inl, inr,
}
use one_autojs.Ledger.{
  TikTokPublicationPhase, TikTokPublicationOutcome, NewTikTokPublication, TikTokPublicationRecord,
  phase_order, TikTokLedger,
}
use one_autojs.Ledger.Checkpoint.{checkpoint_with, checkpoint_record}
use one_autojs.Ledger.Operations.{
  AdvancePatch, CheckpointPatch, Begun, begin_with, advance_with, set_outcome_with, advanced_record,
  with_record, mark_uses, crosses, new_record, commit_ledger,
}

module _ (l : TikTokLedger) where
  -- A publication was there with the same request, or was made.
  pub begin_with-ok :
      (input : NewTikTokPublication) (now : Number) (o : Option TikTokPublicationRecord) {b : Begun}
      → begin_with l input now o ≡ ok b
      → ((l ≡ b.ledger)
          × (o ≡ some b.publication)
          × (b.publication.input.request_fingerprint ≡ input.request_fingerprint)
          × (b.created ≡ false))
        ⊎ ((o ≡ none)
            × (b ≡ record {
              ledger =
                  commit_ledger l (with_record l.state input.publication_id (new_record input now));
              publication = new_record input now;
              created = true;
            }))
  unfolding begin_with
  begin_with-ok input now none h = inr (refl, sym (ok-injective h))
  begin_with-ok input now (some r) h =
      elim (Bool-cases (str_eq r.input.request_fingerprint input.request_fingerprint)) [
        | inl same ↦
            let e = ok-injective (rw same at h) in
            inl (
              ap (λ (b : Begun). b.ledger) e,
              ap (λ (b : Begun). some b.publication) e,
              ap (λ (b : Begun). b.publication.input.request_fingerprint) (sym e)
                  ∙ (eq_iff _ _).0 same,
              ap (λ (b : Begun). b.created) (sym e),
            )
        | inr other ↦ absurd (throw≢ok (rw other at h))
      ]

  -- The record advanced from a phase no later, with its uses marked if it first commits.
  pub advance_with-ok :
      (id : String) (phase : TikTokPublicationPhase) (patch : AdvancePatch) (now : Number)
      (o : Option TikTokPublicationRecord) {l' : TikTokLedger} {r' : TikTokPublicationRecord}
      → advance_with l id phase patch now o ≡ ok (l', r')
      → (r : TikTokPublicationRecord) × (o ≡ some r)
        × (phase_order r.phase ≤ phase_order phase)
        × (commit_ledger l (
              with_record
                (mark_uses l.state r (crosses 2 r.phase phase) now)
                id
                (advanced_record r phase patch now))
            ≡ l')
        × (advanced_record r phase patch now ≡ r')
  unfolding advance_with
  advance_with-ok id phase patch now none h = absurd (throw≢ok h)
  advance_with-ok id phase patch now (some r) h =
      elim (Bool-cases (ltb (phase_order phase) (phase_order r.phase))) [
        | inl back ↦ absurd (throw≢ok (rw back at h))
        | inr forward ↦
            let e = ok-injective (rw forward at h) in
            (r, refl, ground arith, ap (λ p. p.0) e, ap (λ p. p.1) e)
      ]

  pub set_outcome_with-ok :
      (id : String) (outcome : TikTokPublicationOutcome) (error_code : Option String) (now : Number)
      (o : Option TikTokPublicationRecord) {l' : TikTokLedger} {r' : TikTokPublicationRecord}
      → set_outcome_with l id outcome error_code now o ≡ ok (l', r')
      → (r : TikTokPublicationRecord) × (o ≡ some r)
        × (commit_ledger l (
              with_record l.state id
                (record r { outcome = outcome; error_code = error_code; updated_at = now }))
            ≡ l')
  unfolding set_outcome_with
  set_outcome_with-ok id outcome error_code now none h = absurd (throw≢ok h)
  set_outcome_with-ok id outcome error_code now (some r) h =
      (r, refl, ap (λ p. p.0) (ok-injective h))

  pub checkpoint_with-ok :
      (id : String) (patch : CheckpointPatch) (now : Number) (o : Option TikTokPublicationRecord)
      {l' : TikTokLedger} {r' : TikTokPublicationRecord}
      → checkpoint_with l id patch now o ≡ ok (l', r')
      → (r : TikTokPublicationRecord) × (o ≡ some r)
        × (commit_ledger l (with_record l.state id (checkpoint_record r patch now)) ≡ l')
  unfolding checkpoint_with
  checkpoint_with-ok id patch now none h = absurd (throw≢ok h)
  checkpoint_with-ok id patch now (some r) h = (r, refl, ap (λ p. p.0) (ok-injective h))
