-- ===== src/Deployment/Config.antt =====
-- The environment of a deployment command: the keys and the depth of its configuration, and the
-- keys of the local secrets that it asks for.
use one_autojs.Base.{
  ℕ, suc, ◌+◌, ◌≤◌, ◌≡◌, refl, sym, subst, some_inj, none≢some, if_true, if_false, ◌||◌, String,
  Bool, true, false, not, List, [], ◌∷◌, ◌++◌, Option, none, some, Json, Items, Fields, null, bool,
  num, str, arr, obj, nil, cons, end, field, str_eq, leb, Outcome, ok, ◌>>◌, require, require-eq-ok,
  if◌then◌else◌, Bool-cases, inl, inr, All, All-append, arith,
}
use one_autojs.Deployment.Fields.{
  is_sensitive, assert_non_sensitive_config, assert_items, assert_entries, is_secret_key,
  secret_key, secret_items, secret_keys, checked_texts, list_has, append_new, add_all, distinct,
  protected_secret_keys, some_protected,
}

abbrev larger : ℕ → ℕ → ℕ
larger a b = if leb a b then b else a

-- How deep a value is nested, and the keys that occur in it at any depth.
unfoldable mutual
  pub nested_depth : Json → ℕ
  nested_depth null = 0
  nested_depth (bool b) = 0
  nested_depth (num n) = 0
  nested_depth (str s) = 0
  nested_depth (arr items) = items_depth items
  nested_depth (obj fields) = fields_depth fields

  pub items_depth : Items → ℕ
  items_depth nil = 0
  items_depth (cons value rest) = larger (suc (nested_depth value)) (items_depth rest)

  pub fields_depth : Fields → ℕ
  fields_depth end = 0
  fields_depth (field key value rest) = larger (suc (nested_depth value)) (fields_depth rest)

unfoldable mutual
  pub nested_keys : Json → List String
  nested_keys null = []
  nested_keys (bool b) = []
  nested_keys (num n) = []
  nested_keys (str s) = []
  nested_keys (arr items) = items_keys items
  nested_keys (obj fields) = fields_keys fields

  pub items_keys : Items → List String
  items_keys nil = []
  items_keys (cons value rest) = nested_keys value ++ items_keys rest

  pub fields_keys : Fields → List String
  fields_keys end = []
  fields_keys (field key value rest) = key ∷ (nested_keys value ++ fields_keys rest)

abbrev pub IsPlainKey : String → Type 0
IsPlainKey key = is_sensitive key ≡ false

shallow :
    (depth : ℕ) (message : String) (next : Outcome (Unit {0}))
    → (require (leb depth 8) message >> next) ≡ ok tt
    → (depth ≤ 8) × (next ≡ ok tt)
shallow depth message next h =
    let (d, n) = require-eq-ok (leb depth 8) message next h in (ground arith, n)

then_ok :
    (first next : Outcome (Unit {0})) → (first >> next) ≡ ok tt → (first ≡ ok tt) × (next ≡ ok tt)
then_ok (Outcome.ok tt) next h = (refl, h)
then_ok (Outcome.throw e) next h = cc

scalar : (depth : ℕ) (message : String) → require (leb depth 8) message ≡ ok tt → depth + 0 ≤ 8
scalar depth message h = ground arith

mutual
  unfolding assert_non_sensitive_config assert_items assert_entries nested_depth items_depth
      fields_depth

  pub assert-depth :
      (value : Json) (depth : ℕ)
      → assert_non_sensitive_config value depth ≡ ok tt
      → depth + nested_depth value ≤ 8
  assert-depth null depth h = scalar depth _ h
  assert-depth (bool b) depth h = scalar depth _ h
  assert-depth (num n) depth h = scalar depth _ h
  assert-depth (str s) depth h = scalar depth _ h
  assert-depth (arr items) depth h = let (d, n) = shallow depth _ _ h in items-depth items depth d n
  assert-depth (obj fields) depth h =
      let (d, n) = shallow depth _ _ h in fields-depth fields depth d n

  items-depth :
      (items : Items) (depth : ℕ)
      → depth ≤ 8
      → assert_items items (depth + 1) ≡ ok tt
      → depth + items_depth items ≤ 8
  items-depth nil depth d h = omega arith
  items-depth (cons value rest) depth d h =
      let (v, r) =
        then_ok (assert_non_sensitive_config value (depth + 1)) (assert_items rest (depth + 1)) h in
      ground (arith, assert-depth value (depth + 1) v, items-depth rest depth d r)

  fields-depth :
      (fields : Fields) (depth : ℕ)
      → depth ≤ 8
      → assert_entries fields (depth + 1) ≡ ok tt
      → depth + fields_depth fields ≤ 8
  fields-depth end depth d h = omega arith
  fields-depth (field key value rest) depth d h =
      let (v, r) =
        then_ok (assert_non_sensitive_config value (depth + 1)) (assert_entries rest (depth + 1))
          (require-eq-ok (not (is_sensitive key)) _ _ h).1 in
      ground (arith, assert-depth value (depth + 1) v, fields-depth rest depth d r)

mutual
  unfolding assert_non_sensitive_config assert_items assert_entries nested_keys items_keys
      fields_keys

  pub assert-keys :
      (value : Json) (depth : ℕ)
      → assert_non_sensitive_config value depth ≡ ok tt
      → All IsPlainKey (nested_keys value)
  assert-keys null depth h = tt
  assert-keys (bool b) depth h = tt
  assert-keys (num n) depth h = tt
  assert-keys (str s) depth h = tt
  assert-keys (arr items) depth h = items-keys items (depth + 1) (shallow depth _ _ h).1
  assert-keys (obj fields) depth h = fields-keys fields (depth + 1) (shallow depth _ _ h).1

  items-keys :
      (items : Items) (depth : ℕ)
      → assert_items items depth ≡ ok tt
      → All IsPlainKey (items_keys items)
  items-keys nil depth h = tt
  items-keys (cons value rest) depth h =
      let (v, r) = then_ok _ _ h in
      All-append IsPlainKey (nested_keys value) (items_keys rest) (assert-keys value depth v)
        (items-keys rest depth r)

  fields-keys :
      (fields : Fields) (depth : ℕ)
      → assert_entries fields depth ≡ ok tt
      → All IsPlainKey (fields_keys fields)
  fields-keys end depth h = tt
  fields-keys (field key value rest) depth h =
      let (k, n) = require-eq-ok (not (is_sensitive key)) _ _ h in
      let (v, r) = then_ok _ _ n in
      (
        ground arith,
        All-append IsPlainKey (nested_keys value) (fields_keys rest) (assert-keys value depth v)
            (fields-keys rest depth r),
      )

-- A key that the local environment may be asked for.
abbrev pub IsSecretKey : String → Type 0
IsSecretKey key = (is_secret_key key ≡ true) × (list_has key protected_secret_keys ≡ false)

secret_key-test :
    (value : Json) {key : String} → secret_key value ≡ some key → is_secret_key key ≡ true
secret_key-test (str s) h = elim (Bool-cases (is_secret_key s)) [
  | inl e ↦ subst (λ k. is_secret_key k ≡ true) (some_inj (if_true _ _ e h)) e
  | inr e ↦ absurd (none≢some (if_false _ _ e h))
]
secret_key-test null h = cc
secret_key-test (bool b) h = cc
secret_key-test (num n) h = cc
secret_key-test (arr items) h = cc
secret_key-test (obj fields) h = cc

checked_texts-eq-some :
    (first : Option String) (others : Option (List String)) {keys : List String}
    → checked_texts first others ≡ some keys
    → (key : String) × (rest : List String) × (first ≡ some key)
      × (others ≡ some rest)
      × (key ∷ rest ≡ keys)
checked_texts-eq-some none others h = cc
checked_texts-eq-some (some key) none h = cc
checked_texts-eq-some (some key) (some rest) h = (key, rest, refl, refl, some_inj h)

some_protected-All :
    (items : Items) (keys : List String)
    → secret_items items ≡ some keys
    → some_protected keys ≡ false
    → All IsSecretKey keys
unfolding some_protected
some_protected-All nil keys h p = subst (All IsSecretKey) (some_inj h) tt
some_protected-All (cons value others) keys h p =
    let (key, rest, k, r, e) = checked_texts-eq-some (secret_key value) (secret_items others) h in
    let (a, b) =
      or_false (list_has key protected_secret_keys) (some_protected rest)
        (subst (λ ks. some_protected ks ≡ false) (sym e) p) in
    subst (All IsSecretKey) e ((secret_key-test value k, a), some_protected-All others rest r b)
  where
    or_false : (a b : Bool) → (a || b) ≡ false → (a ≡ false) × (b ≡ false)
    or_false false b h = (refl, h)
    or_false true b h = cc

All-append_new {ℓ} :
    (P : String → Type ℓ) (x : String) (set : List String)
    → P x
    → All P set
    → All P (append_new x set)
All-append_new P x [] p h = (p, tt)
All-append_new P x (y ∷ ys) p (q, h) = elim (Bool-cases (str_eq y x)) [
  | inl e ↦ rw e (q, h)
  | inr e ↦ rw e (q, All-append_new P x ys p h)
]

All-add_all {ℓ} :
    (P : String → Type ℓ) (set keys : List String)
    → All P set
    → All P keys
    → All P (add_all set keys)
All-add_all P set [] h k = h
All-add_all P set (x ∷ xs) h (p, k) =
    All-add_all P (append_new x set) xs (All-append_new P x set p h) k

distinct-All {ℓ} : (P : String → Type ℓ) (keys : List String) → All P keys → All P (distinct keys)
unfolding distinct
distinct-All P keys h = All-add_all P [] keys tt h

pub secret_keys-All :
    (value : Option Json) {keys : List String}
    → secret_keys value ≡ some keys
    → some_protected keys ≡ false
    → All IsSecretKey (distinct keys)
unfolding secret_keys
secret_keys-All (some (arr items)) {keys} h p =
    distinct-All IsSecretKey keys (some_protected-All items keys h p)
secret_keys-All none h p = cc
secret_keys-All (some null) h p = cc
secret_keys-All (some (bool b)) h p = cc
secret_keys-All (some (num n)) h p = cc
secret_keys-All (some (str s)) h p = cc
secret_keys-All (some (obj fields)) h p = cc
