-- ===== src/Deployment/Walk.antt =====
-- Archive paths read one segment at a time, by the depth below the directory in which they start,
-- beside Node's `normalizeString`, which keeps a stack of segments.
use one_autojs.Base.{
  ℕ, zero, suc, ◌≡◌, ◌≢◌, refl, ◌∙◌, inl, inr, Bool, true, false, not, ◌&&◌, ◌||◌, List, [], ◌∷◌,
  ◌++◌, Option, none, some, ◌==◌, if◌then◌else◌, All, Bool-cases, length, arith,
}
use one_autojs.Deployment.Archive.{
  starts_up, slash, is_absolute, put_first, segments, is_here, is_up, go_up, enter, resolve, render,
  trailing, relative, rooted, ends_in_slash, normalize, leads_up,
}

abbrev pub above : ℕ → Option ℕ
above zero = none
above (suc d) = some d

-- The depth after a segment; `none` is a step above the release directory.
abbrev pub depth_after : ℕ → List ℕ → Option ℕ
depth_after d seg = if is_here seg then some d else if is_up seg then above d else some (suc d)

unfoldable pub walk : ℕ → List (List ℕ) → Bool
walk d [] = true
walk d (seg ∷ rest) = elim (depth_after d seg) [ none ↦ false | some e ↦ walk e rest ]

-- No prefix of the path leaves the directory in which it starts.
unfoldable pub stays_inside : List ℕ → Bool
stays_inside path = walk 0 (segments path)

abbrev no_slash : List ℕ → Bool
no_slash [] = true
no_slash (c ∷ s) = not (c == slash) && no_slash s

abbrev NoSlash : List ℕ → Type 0
NoSlash seg = no_slash seg ≡ true

NoSlash-put_first :
    (c : ℕ) (segs : List (List ℕ))
    → (c == slash) ≡ false
    → All NoSlash segs
    → All NoSlash (put_first c segs)
NoSlash-put_first c [] h all = (rw h, tt)
NoSlash-put_first c (s ∷ rest) h (clean, all) = (rw h clean, all)

segments-NoSlash : (path : List ℕ) → All NoSlash (segments path)
unfolding segments
segments-NoSlash [] = (refl, tt)
segments-NoSlash (c ∷ s) = elim (Bool-cases (c == slash)) [
  | inl e ↦ rw e (refl, segments-NoSlash s)
  | inr e ↦ rw e (NoSlash-put_first c (segments s) e (segments-NoSlash s))
]

go_up-NoSlash :
    (seg : List ℕ) (stack : List (List ℕ))
    → NoSlash seg
    → All NoSlash stack
    → All NoSlash (go_up true seg stack)
go_up-NoSlash seg [] h all = (h, tt)
go_up-NoSlash seg (top ∷ stack) h (clean, all) = elim (Bool-cases (is_up top)) [
  | inl e ↦ rw e (h, (clean, all))
  | inr e ↦ rw e all
]

enter-NoSlash :
    (seg : List ℕ) (stack : List (List ℕ))
    → NoSlash seg
    → All NoSlash stack
    → All NoSlash (enter true seg stack)
enter-NoSlash seg stack h all = elim (Bool-cases (is_here seg)) [
  | inl e ↦ rw e all
  | inr e ↦ rw e (elim (Bool-cases (is_up seg)) [
    | inl u ↦ rw u (go_up-NoSlash seg stack h all)
    | inr u ↦ rw u (h, all)
  ])
]

resolve-NoSlash :
    (segs stack : List (List ℕ))
    → All NoSlash segs
    → All NoSlash stack
    → All NoSlash (resolve true stack segs)
unfolding resolve
resolve-NoSlash [] stack h all = all
resolve-NoSlash (seg ∷ rest) stack (clean, h) all =
    resolve-NoSlash rest (enter true seg stack) h (enter-NoSlash seg stack clean all)

starts_up-enter :
    (seg : List ℕ) (stack : List (List ℕ))
    → starts_up stack ≡ true
    → starts_up (enter true seg stack) ≡ true
starts_up-enter seg [] h = cc
starts_up-enter seg (top ∷ []) h = ground arith
starts_up-enter seg (top ∷ next ∷ stack) h = ground arith

starts_up-resolve :
    (segs stack : List (List ℕ))
    → starts_up stack ≡ true
    → starts_up (resolve true stack segs) ≡ true
unfolding resolve
starts_up-resolve [] stack h = h
starts_up-resolve (seg ∷ rest) stack h =
    starts_up-resolve rest (enter true seg stack) (starts_up-enter seg stack h)

abbrev IsName : List ℕ → Type 0
IsName seg = is_up seg ≡ false

starts_up-names : (stack : List (List ℕ)) → All IsName stack → starts_up stack ≡ false
starts_up-names [] h = refl
starts_up-names (seg ∷ []) (n, h) = n
starts_up-names (seg ∷ next ∷ stack) (n, h) = starts_up-names (next ∷ stack) h

-- A step up, in terms of what is left of the path.
starts_up-go_up :
    (seg : List ℕ) (rest stack : List (List ℕ))
    → is_up seg ≡ true
    → All IsName stack
    → ((below : List (List ℕ))
        → All IsName below
        → starts_up (resolve true below rest) ≡ not (walk (length below) rest))
    → starts_up (resolve true (go_up true seg stack) rest)
      ≡ not (elim (above (length stack)) [ none ↦ false | some e ↦ walk e rest ])
starts_up-go_up seg rest [] u h next = starts_up-resolve rest (seg ∷ []) u
starts_up-go_up seg rest (top ∷ below) u (n, h) next = rw n (next below h)

-- While the walk is inside, the stack holds one name for each level.
starts_up-eq-walk :
    (segs stack : List (List ℕ))
    → All IsName stack
    → starts_up (resolve true stack segs) ≡ not (walk (length stack) segs)
unfolding resolve walk
starts_up-eq-walk [] stack names = starts_up-names stack names
starts_up-eq-walk (seg ∷ rest) stack names = elim (Bool-cases (is_here seg)) [
  | inl e ↦ rw (e, walk) (starts_up-eq-walk rest stack names)
  | inr e ↦ elim (Bool-cases (is_up seg)) [
    | inl u ↦ rw (e, u, walk) (starts_up-go_up seg rest stack u names (starts_up-eq-walk rest))
    | inr u ↦ rw (e, u, walk) (starts_up-eq-walk rest (seg ∷ stack) (u, names))
  ]
]

-- What follows a segment in a text.
abbrev IsTail : List ℕ → Type 0
IsTail [] = Unit
IsTail (c ∷ s) = (c == slash) ≡ true

leads_up-segment :
    (seg after : List ℕ) → NoSlash seg → IsTail after → leads_up (seg ++ after) ≡ is_up seg
leads_up-segment [] [] h t = refl
leads_up-segment [] (c ∷ []) h t = refl
leads_up-segment [] (c ∷ d ∷ []) h t = ground arith
leads_up-segment [] (c ∷ d ∷ e ∷ s) h t = ground arith
leads_up-segment (a ∷ []) [] h t = refl
leads_up-segment (a ∷ []) (c ∷ []) h t = ground arith
leads_up-segment (a ∷ []) (c ∷ d ∷ s) h t = ground arith
leads_up-segment (a ∷ b ∷ []) [] h t = refl
leads_up-segment (a ∷ b ∷ []) (c ∷ s) h t = ground arith
leads_up-segment (a ∷ b ∷ e ∷ s) after h t = ground arith

leads_up-render :
    (stack : List (List ℕ)) (after : List ℕ)
    → All NoSlash stack
    → IsTail after
    → stack ≢ []
    → leads_up (render stack after) ≡ starts_up stack
unfolding render
leads_up-render [] after h t filled = absurd (filled refl)
leads_up-render (seg ∷ []) after (clean, h) t filled = leads_up-segment seg after clean t
leads_up-render (seg ∷ next ∷ stack) after (clean, h) t filled =
    leads_up-render (next ∷ stack) (slash ∷ (seg ++ after)) h refl (λ e. cc)

trailing-IsTail : (ends : Bool) → IsTail (trailing ends)
trailing-IsTail true = refl
trailing-IsTail false = tt

leads_up-relative :
    (stack : List (List ℕ)) (ends : Bool)
    → All NoSlash stack
    → leads_up (relative stack ends) ≡ starts_up stack
leads_up-relative [] true h = refl
leads_up-relative [] false h = refl
leads_up-relative (seg ∷ stack) ends h =
    leads_up-render (seg ∷ stack) (trailing ends) h (trailing-IsTail ends) (λ e. cc)

leads_up-rooted : (stack : List (List ℕ)) (ends : Bool) → leads_up (rooted stack ends) ≡ false
leads_up-rooted [] ends = refl
leads_up-rooted (seg ∷ stack) ends = leads_up_slash (render (seg ∷ stack) (trailing ends))
  where
    leads_up_slash : (s : List ℕ) → leads_up (slash ∷ s) ≡ false
    leads_up_slash [] = refl
    leads_up_slash (c ∷ []) = refl
    leads_up_slash (c ∷ d ∷ s) = refl

stays_inside-empty : stays_inside [] ≡ true
unfolding stays_inside walk segments
stays_inside-empty = refl

-- A relative path is normalised to one that leads up just if the walk leaves the directory.
pub leads_up-normalize :
    (path : List ℕ) → leads_up (normalize path) ≡ not (is_absolute path || stays_inside path)
unfolding normalize stays_inside
leads_up-normalize [] = rw stays_inside-empty
leads_up-normalize (c ∷ s) = elim (Bool-cases (c == slash)) [
  | inl e ↦ rw e (leads_up-rooted (resolve false [] (segments (c ∷ s))) (ends_in_slash (c ∷ s)))
  | inr e ↦ rw e (
      leads_up-relative (resolve true [] (segments (c ∷ s))) (ends_in_slash (c ∷ s))
        (resolve-NoSlash (segments (c ∷ s)) [] (segments-NoSlash (c ∷ s)) tt)
      ∙ starts_up-eq-walk (segments (c ∷ s)) [] tt)
]
