-- ===== src/Deployment/Inside.antt =====
-- Archive paths read one segment at a time, by the depth below the release directory: which of
-- them `safeArchivePath` and `isSafeArchiveSymlink` let through.
use one_autojs.Base.{
  ℕ, ◌≡◌, refl, sym, ap, ◌∙◌, false≢true, inl, inr, Bool, true, false, not, ◌&&◌, ◌||◌, List, [],
  ◌∷◌, Bool-cases, arith,
}
use one_autojs.Deployment.Archive.{
  is_empty, is_absolute, has_control, strip_dot_slash, segments, normalize, leads_up,
  safe_archive_path, link_path, is_safe_archive_symlink,
}
use one_autojs.Deployment.Walk.{walk, stays_inside, leads_up-normalize}

-- `safeArchivePath` lets a path through just if it is not empty, not absolute, free of control
-- characters, and, without a leading `./`, is absolute or never steps above the directory in which
-- it starts.
pub safe_archive_path-eq-walk :
    (value : List ℕ)
    → safe_archive_path value ≡ (
        not (is_empty value || is_absolute value || has_control value)
        && (is_absolute (strip_dot_slash value) || stays_inside (strip_dot_slash value)))
unfolding safe_archive_path
safe_archive_path-eq-walk value = rw (leads_up-normalize (strip_dot_slash value)) (
    ap (λ b. not (is_empty value || is_absolute value || has_control value) && b)
      (not_not (is_absolute (strip_dot_slash value) || stays_inside (strip_dot_slash value))))
  where
    not_not : (b : Bool) → not (not b) ≡ b
    not_not true = refl
    not_not false = refl

-- A text that leads up is not an archive path that is let through.
leads_up-segments :
    (text : List ℕ)
    → leads_up text ≡ true
    → (is_absolute text ≡ false) × (stays_inside text ≡ false) × (strip_dot_slash text ≡ text)
unfolding stays_inside walk segments strip_dot_slash
leads_up-segments [] h = cc
leads_up-segments (c ∷ []) h = cc
leads_up-segments (c ∷ d ∷ []) h = ground arith
leads_up-segments (c ∷ d ∷ e ∷ s) h = ground arith

leads_up-refused : (text : List ℕ) → leads_up text ≡ true → safe_archive_path text ≡ false
leads_up-refused text h =
    let (a, i, e) = leads_up-segments text h in
    safe_archive_path-eq-walk text ∙ rw (e, a, i) (and_false _)
  where
    and_false : (b : Bool) → (b && false) ≡ false
    and_false true = refl
    and_false false = refl

escaping-refused :
    (path : List ℕ)
    → is_absolute path ≡ false
    → stays_inside path ≡ false
    → safe_archive_path (normalize (normalize path)) ≡ false
escaping-refused path a i =
    let up : leads_up (normalize path) ≡ true = leads_up-normalize path ∙ rw (a, i) in
    let (a', i', _) = leads_up-segments (normalize path) up in
    leads_up-refused (normalize (normalize path))
      (leads_up-normalize (normalize path) ∙ rw (a', i'))

-- A symbolic link is let through only if its entry is, and its target, read from the directory of
-- the link, is absolute or never steps above the release directory on the way; a target that is
-- itself absolute, empty or has a control character is refused.
pub is_safe_archive_symlink-inside :
    (entry target : List ℕ)
    → is_safe_archive_symlink entry target ≡ true
    → (safe_archive_path entry ≡ true)
      × ((is_empty target || is_absolute target || has_control target) ≡ false)
      × ((is_absolute (link_path entry target) || stays_inside (link_path entry target)) ≡ true)
unfolding is_safe_archive_symlink
is_safe_archive_symlink-inside entry target h = (
  both.0,
  not_true _ (and_true _ _ both.1).0,
  inside (link_path entry target) (and_true _ _ both.1).1,
)
  where
    and_true : (a b : Bool) → (a && b) ≡ true → (a ≡ true) × (b ≡ true)
    and_true true b e = (refl, e)
    and_true false b e = cc

    not_true : (a : Bool) → not a ≡ true → a ≡ false
    not_true true e = cc
    not_true false e = refl

    both :
        (safe_archive_path entry ≡ true)
        × ((not (is_empty target || is_absolute target || has_control target)
              && safe_archive_path (normalize (normalize (link_path entry target))))
            ≡ true)
    both = and_true _ _ h

    inside :
        (path : List ℕ)
        → safe_archive_path (normalize (normalize path)) ≡ true
        → (is_absolute path || stays_inside path) ≡ true
    inside path e = elim (Bool-cases (is_absolute path)) [
      | inl a ↦ rw a
      | inr a ↦ elim (Bool-cases (stays_inside path)) [
        | inl i ↦ rw (a, i)
        | inr i ↦ absurd (false≢true (sym (escaping-refused path a i) ∙ e))
      ]
    ]
