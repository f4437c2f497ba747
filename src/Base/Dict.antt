-- ===== src/Base/Dict.antt =====
-- Python's `dict`: a write to a present key keeps its place, a new key goes to the end, and
-- `items` runs in that order.
use smarttest_platform.Base.Tests.{if◌then◌else◌, Eq, Bool-cases, beq_refl}
use mathlib.Core.Path.{◌≡◌, refl, ap}
use mathlib.Core.Bool.{true, false, Bool}
use mathlib.Core.Logic.{◌⊎◌, inl, inr}
use mathlib.Core.Option.{Option, none, some}
use mathlib.Core.List.{List, [], ◌∷◌}
use native.Mathlib.Omega.{arith}
use smarttest_platform.Base.Lists.{elem}

abbrev pub Dict {ℓ κ} : Type ℓ → Type κ → Type (ℓ ⊔ κ)
Dict K V = List (K × V)

module _ {ℓ κ} {K : Type ℓ} {V : Type κ} ⦃e : Eq K⦄ where
  -- d.get(k)
  unfoldable pub lookup : K → Dict K V → Option V
  lookup k [] = none
  lookup k ((j, v) ∷ d) = if e.beq j k then some v else lookup k d

  -- d[k] = v
  unfoldable pub insert : K → V → Dict K V → Dict K V
  insert k v [] = (k, v) ∷ []
  insert k v ((j, w) ∷ d) = if e.beq j k then (j, v) ∷ d else (j, w) ∷ insert k v d

  -- d.pop(k, None)
  unfoldable pub delete : K → Dict K V → Dict K V
  delete k [] = []
  delete k ((j, w) ∷ d) = let rest = delete k d in if e.beq j k then rest else (j, w) ∷ rest

  pub lookup-insert :
      (k j : K) (v : V) (d : Dict K V)
      → lookup j (insert k v d) ≡ (if e.beq k j then some v else lookup j d)
  unfolding lookup insert
  lookup-insert k j v [] = refl
  lookup-insert k j v ((i, w) ∷ d) =
      ground (arith, e.beq_iff i k, e.beq_iff i j, e.beq_iff k j, lookup-insert k j v d)

  pub lookup-delete :
      (k j : K) (d : Dict K V) → lookup j (delete k d) ≡ (if e.beq k j then none else lookup j d)
  unfolding lookup delete
  lookup-delete k j [] = ground arith
  lookup-delete k j ((i, w) ∷ d) =
      ground (arith, e.beq_iff i k, e.beq_iff i j, e.beq_iff k j, lookup-delete k j d)

  -- No key stands twice.
  abbrev pub Distinct : Dict K V → Type κ
  Distinct [] = Unit
  Distinct ((k, v) ∷ d) = (lookup k d ≡ none) × Distinct d

  pub Distinct-insert : (k : K) (v : V) (d : Dict K V) → Distinct d → Distinct (insert k v d)
  unfolding lookup insert
  Distinct-insert k v [] h = (refl, tt)
  Distinct-insert k v ((j, w) ∷ d) h =
      ground (arith, e.beq_iff k j, e.beq_iff j k, lookup-insert k j v d, Distinct-insert k v d h.1)

-- d.values()
abbrev pub values {ℓ κ} : {K : Type ℓ} {V : Type κ} → Dict K V → List V
values [] = []
values ((k, v) ∷ d) = v ∷ values d

module _ {ℓ κ} {K : Type ℓ} {V : Type κ} ⦃e : Eq K⦄ where
  -- What is found after a write is what was written, or was there under another key.
  pub found_after_insert :
      (k j : K) (v w : V) (d : Dict K V)
      → lookup j (insert k v d) ≡ some w
      → ((k ≡ j) × (v ≡ w)) ⊎ ((e.beq k j ≡ false) × (lookup j d ≡ some w))
  found_after_insert k j v w d h = elim (Bool-cases (e.beq k j)) [
    | inl same ↦ inl ((e.beq_iff k j).0 same, cc (h, lookup-insert k j v d, same_key same))
    | inr other ↦ inr (other, ground (arith, lookup-insert k j v d))
  ]
    where
      same_key : e.beq k j ≡ true → (if e.beq k j then some v else lookup j d) ≡ some v
      same_key p = rw p

  pub lookup-insert_self : (k : K) (v : V) (d : Dict K V) → lookup k (insert k v d) ≡ some v
  lookup-insert_self k v d = rw (lookup-insert, beq_refl k)

  -- A write to a free key leaves what is found under the others.
  pub lookup-insert_free :
      (k j : K) (v w : V) (d : Dict K V)
      → lookup k d ≡ none
      → lookup j d ≡ some w
      → lookup j (insert k v d) ≡ some w
  lookup-insert_free k j v w d free found = elim (Bool-cases (e.beq k j)) [
    | inl same ↦ absurd (cc (free, found, ap (λ i. lookup i d) ((e.beq_iff k j).0 same)))
    | inr other ↦ rw (lookup-insert, other) found
  ]

  pub found_unique :
      (k j : K) (v w : V) (d : Dict K V)
      → e.beq k j ≡ true
      → lookup k d ≡ some v
      → lookup j d ≡ some w
      → v ≡ w
  found_unique k j v w d same h g = cc (h, g, ap (λ i. lookup i d) ((e.beq_iff k j).0 same))

  -- Every item of a list stands in the dictionary.
  abbrev pub Agrees : Dict K V → Dict K V → Type κ
  Agrees d [] = Unit
  Agrees d ((k, v) ∷ items) = (lookup k d ≡ some v) × Agrees d items

  pub Agrees-insert :
      (k : K) (v : V) (d items : Dict K V)
      → lookup k items ≡ none
      → Agrees d items
      → Agrees (insert k v d) items
  unfolding lookup
  Agrees-insert k v d [] free h = tt
  Agrees-insert k v d ((j, w) ∷ items) free h = (
    ground (arith, lookup-insert k j v d, e.beq_iff k j, e.beq_iff j k),
    Agrees-insert k v d items (ground arith) h.1,
  )

  Agrees-cons :
      (k : K) (v : V) (d items : Dict K V)
      → lookup k items ≡ none
      → Agrees d items
      → Agrees ((k, v) ∷ d) items
  unfolding lookup
  Agrees-cons k v d [] free h = tt
  Agrees-cons k v d ((j, w) ∷ items) free h =
      (ground (arith, e.beq_iff k j, e.beq_iff j k), Agrees-cons k v d items (ground arith) h.1)

  pub Agrees-self : (d : Dict K V) → Distinct d → Agrees d d
  unfolding lookup
  Agrees-self [] h = tt
  Agrees-self ((k, v) ∷ d) h = (rw (beq_refl k), Agrees-cons k v d d h.0 (Agrees-self d h.1))

-- next((x for x in xs if test(x)), None)
abbrev pub first_where {ℓ} : {A : Type ℓ} → (A → Bool) → List A → Option A
first_where test [] = none
first_where test (x ∷ xs) = let rest = first_where test xs in if test x then some x else rest

module _ {ℓ κ} {K : Type ℓ} {V : Type κ} where
  -- {k: v for k, v in d.items() if test(v)}
  abbrev pub keep_values : (V → Bool) → Dict K V → Dict K V
  keep_values test [] = []
  keep_values test ((k, v) ∷ d) =
      let rest = keep_values test d in if test v then (k, v) ∷ rest else rest

  -- [k for k, v in d.items() if test(v)]
  abbrev pub keys_where : (V → Bool) → Dict K V → List K
  keys_where test [] = []
  keys_where test ((k, v) ∷ d) = let rest = keys_where test d in if test v then k ∷ rest else rest

module _ {ℓ κ} {K : Type ℓ} {V : Type κ} ⦃e : Eq K⦄ where
  lookup-keep_none :
      (test : V → Bool) (k : K) (d : Dict K V)
      → lookup k d ≡ none
      → lookup k (keep_values test d) ≡ none
  unfolding lookup
  lookup-keep_none test k [] h = refl
  lookup-keep_none test k ((j, v) ∷ d) h = ground (arith, lookup-keep_none test k d)

  pub Distinct-keep : (test : V → Bool) (d : Dict K V) → Distinct d → Distinct (keep_values test d)
  Distinct-keep test [] h = tt
  Distinct-keep test ((k, v) ∷ d) h = elim (Bool-cases (test v)) [
    | inl e ↦ rw e (lookup-keep_none test k d h.0, Distinct-keep test d h.1)
    | inr e ↦ rw e (Distinct-keep test d h.1)
  ]

  -- What is kept was there, and passes.
  pub lookup-keep :
      (test : V → Bool) (k : K) (v : V) (d : Dict K V)
      → Distinct d
      → lookup k (keep_values test d) ≡ some v
      → lookup k d ≡ some v
  unfolding lookup
  lookup-keep test k v [] h found = found
  lookup-keep test k v ((j, w) ∷ d) h found = ground (
    arith,
    e.beq_iff j k,
    lookup-keep_none test j d,
    lookup-keep_none test k d,
    lookup-keep test k v d h.1,
  )

  -- What is found is a value.
  pub first_where-none :
      (test : V → Bool) (k : K) (v : V) (d : Dict K V)
      → first_where test (values d) ≡ none
      → lookup k d ≡ some v
      → test v ≡ false
  unfolding lookup
  first_where-none test k v [] h found = cc
  first_where-none test k v ((j, w) ∷ d) h found = ground (arith, first_where-none test k v d)

  pub lookup-keep_found :
      (test : V → Bool) (k : K) (v : V) (d : Dict K V)
      → Distinct d
      → lookup k d ≡ some v
      → lookup k (keep_values test d) ≡ (if test v then some v else none)
  unfolding lookup
  lookup-keep_found test k v [] h found = cc
  lookup-keep_found test k v ((j, w) ∷ d) h found = ground (
    arith,
    e.beq_iff j k,
    lookup-keep_none test j d,
    lookup-keep_none test k d,
    lookup-keep_found test k v d h.1,
  )

  -- The key of a value that passes is listed.
  pub elem-keys_where :
      (test : V → Bool) (k : K) (v : V) (d : Dict K V)
      → lookup k d ≡ some v
      → test v ≡ true
      → elem k (keys_where test d) ≡ true
  unfolding lookup
  elem-keys_where test k v [] found h = cc
  elem-keys_where test k v ((j, w) ∷ d) found h =
      ground (arith, e.beq_iff j k, e.beq_iff k j, elem-keys_where test k v d)

  absent-keys_where :
      (test : V → Bool) (k : K) (d : Dict K V)
      → lookup k d ≡ none
      → elem k (keys_where test d) ≡ false
  unfolding lookup
  absent-keys_where test k [] h = refl
  absent-keys_where test k ((j, w) ∷ d) h =
      ground (arith, e.beq_iff j k, e.beq_iff k j, absent-keys_where test k d)

  -- The key of a value that does not pass is not listed.
  pub other-keys_where :
      (test : V → Bool) (k : K) (v : V) (d : Dict K V)
      → Distinct d
      → lookup k d ≡ some v
      → test v ≡ false
      → elem k (keys_where test d) ≡ false
  unfolding lookup
  other-keys_where test k v [] h found fails = refl
  other-keys_where test k v ((j, w) ∷ d) h found fails = ground (
    arith,
    e.beq_iff j k,
    e.beq_iff k j,
    absent-keys_where test j d,
    absent-keys_where test k d,
    other-keys_where test k v d h.1,
  )
