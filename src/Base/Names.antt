-- ===== src/Base/Names.antt =====
-- Records under identifiers beside an index from their names, as most stores of the program keep
-- them.
use mathlib.Core.Path.{◌≡◌, refl, sym, ap, ◌∙◌, subst}
use mathlib.Core.Option.{Option, none, some}
use mathlib.Core.Bool.{Bool, true, false, not}
use mathlib.Core.Logic.{◌⊎◌, inl, inr}
use native.Mathlib.Omega.{arith}
use smarttest_platform.Base.Tests.{Eq, Bool-cases, clash}
use smarttest_platform.Base.Dict.{
  Dict, lookup, insert, delete, found_after_insert, lookup-insert, lookup-insert_self,
  lookup-insert_free, lookup-delete,
}

module _ {ℓ κ} {K : Type ℓ} {V : Type κ} ⦃e : Eq K⦄ where
  -- What is found after a removal was there, under another key.
  pub found_after_delete :
      (k j : K) (v : V) (d : Dict K V)
      → lookup j (delete k d) ≡ some v
      → (e.beq k j ≡ false) × (lookup j d ≡ some v)
  found_after_delete k j v d h = elim (Bool-cases (e.beq k j)) [
    | inl same ↦ absurd (cc (h, removed same))
    | inr other ↦ (other, kept other ∙ h)
  ]
    where
      removed : e.beq k j ≡ true → lookup j (delete k d) ≡ none
      removed p = rw (lookup-delete, p)

      kept : e.beq k j ≡ false → lookup j d ≡ lookup j (delete k d)
      kept p = rw (lookup-delete, p)

  pub lookup-insert_other :
      (k j : K) (v : V) (d : Dict K V) → e.beq k j ≡ false → lookup j (insert k v d) ≡ lookup j d
  lookup-insert_other k j v d other = rw (lookup-insert, other)

  pub lookup-delete_other :
      (k j : K) (d : Dict K V) → e.beq k j ≡ false → lookup j (delete k d) ≡ lookup j d
  lookup-delete_other k j d other = rw (lookup-delete, other)

  pub one_value :
      {k j : K} (d : Dict K V) {v w : V} → k ≡ j → lookup k d ≡ some v → lookup j d ≡ some w → v ≡ w
  one_value d same h g = cc (h, g, ap (λ i. lookup i d) same)

module _ {ℓ} {K : Type ℓ} ⦃e : Eq K⦄ where
  pub other_key : (k j : K) → (k ≡ j → ⊥) → e.beq k j ≡ false
  other_key k j h = elim (Bool-cases (e.beq k j)) [
    | inl same ↦ absurd (h ((e.beq_iff k j).0 same))
    | inr other ↦ other
  ]

module _ {ℓ} {K : Type ℓ} ⦃e : Eq K⦄ where
  -- `owner is not None and owner != id`
  abbrev pub other_owner : Option K → K → Bool
  other_owner none id = false
  other_owner (some owner) id = not (e.beq owner id)

  owner_cases : (o : Option K) (id : K) → other_owner o id ≡ false → (o ≡ none) ⊎ (o ≡ some id)
  owner_cases none id h = inl refl
  owner_cases (some owner) id h = inr (ap some ((e.beq_iff owner id).0 (ground arith)))

module _ {ℓ κ μ} {K : Type ℓ} {N : Type κ} {R : Type μ} ⦃e : Eq K⦄ ⦃f : Eq N⦄ (name : R → N) where
  -- Each record is found by its name, and each name leads to a record that has it. So no two
  -- records have one name.
  abbrev pub IsIndexed : Dict K R → Dict N K → Type (ℓ ⊔ κ ⊔ μ)
  IsIndexed records names =
      ((k : K) (r : R) → lookup k records ≡ some r → lookup (name r) names ≡ some k)
      × ((n : N) (k : K)
          → lookup n names ≡ some k
          → (r : R) × (lookup k records ≡ some r) × (name r ≡ n))

  pub IsIndexed-add :
      (k : K) (r : R) (records : Dict K R) (names : Dict N K)
      → IsIndexed records names
      → lookup k records ≡ none
      → lookup (name r) names ≡ none
      → IsIndexed (insert k r records) (insert (name r) k names)
  IsIndexed-add k r records names h fresh free = (
    λ j w found. elim (found_after_insert k j r w records found) [
      | inl (same, value) ↦
          subst (λ x. lookup (name x) (insert (name r) k names) ≡ some j) value
            (subst (λ x. lookup (name r) (insert (name r) k names) ≡ some x) same
              (lookup-insert_self (name r) k names))
      | inr (other, before) ↦ lookup-insert_free (name r) (name w) k j names free (h.0 j w before)
    ],
    λ n j found. elim (found_after_insert (name r) n k j names found) [
      | inl (same, value) ↦ (
        r,
        subst (λ x. lookup x (insert k r records) ≡ some r) value (lookup-insert_self k r records),
        same,
      )
      | inr (other, before) ↦
          let (w, kept, named) = h.1 n j before in
          (w, lookup-insert_free k j r w records fresh kept, named)
    ],
  )

  -- The record takes a name that no other has.
  pub IsIndexed-rename :
      (k : K) (q r : R) (records : Dict K R) (names : Dict N K)
      → IsIndexed records names
      → lookup k records ≡ some q
      → (lookup (name r) names ≡ none) ⊎ (lookup (name r) names ≡ some k)
      → IsIndexed (insert k r records) (insert (name r) k (delete (name q) names))
  IsIndexed-rename k q r records names h old owner = (
    λ j w found. elim (found_after_insert k j r w records found) [
      | inl (same, value) ↦
          subst (λ x. lookup (name x) (insert (name r) k (delete (name q) names)) ≡ some j) value
            (subst (λ x. lookup (name r) (insert (name r) k (delete (name q) names)) ≡ some x) same
              (lookup-insert_self (name r) k (delete (name q) names)))
      | inr (other, before) ↦
          lookup-insert_other (name r) (name w) k (delete (name q) names) (
            other_key (name r) (name w)
              (λ same. taken j other (cc (ap (λ n. lookup n names) same, h.0 j w before))))
          ∙ lookup-delete_other (name q) (name w) names (
              other_key (name q) (name w)
                (λ same. differ j other (one_value names same (h.0 k q old) (h.0 j w before))))
          ∙ h.0 j w before
    ],
    λ n j found. elim (found_after_insert (name r) n k j (delete (name q) names) found) [
      | inl (same, value) ↦ (
        r,
        subst (λ x. lookup x (insert k r records) ≡ some r) value (lookup-insert_self k r records),
        same,
      )
      | inr (other, before) ↦
          let (other', kept) = found_after_delete (name q) n j names before in
          let (w, has, named) = h.1 n j kept in
          (
            w,
            lookup-insert_other k j r records (
                  other_key k j (λ same.
                    clash
                      ((f.beq_iff (name q) n).1 (ap name (one_value records same old has) ∙ named))
                      other'))
                ∙ has,
            named,
          )
    ],
  )
    where
      differ : (j : K) → e.beq k j ≡ false → k ≡ j → ⊥
      differ j other same = clash ((e.beq_iff k j).1 same) other

      taken : (j : K) → e.beq k j ≡ false → lookup (name r) names ≡ some j → ⊥
      taken j other h = elim owner [ inl free ↦ cc | inr mine ↦ differ j other (cc) ]

  -- The record keeps its name.
  pub IsIndexed-same :
      (k : K) (q r : R) (records : Dict K R) (names : Dict N K)
      → IsIndexed records names
      → lookup k records ≡ some q
      → name r ≡ name q
      → IsIndexed (insert k r records) names
  IsIndexed-same k q r records names h old same_name = (
    λ j w found. elim (found_after_insert k j r w records found) [
      | inl (same, value) ↦
          subst (λ x. lookup (name x) names ≡ some j) value
            (subst (λ x. lookup (name r) names ≡ some x) same
              (subst (λ x. lookup x names ≡ some k) (sym same_name) (h.0 k q old)))
      | inr (other, before) ↦ h.0 j w before
    ],
    λ n j found.
        let (w, has, named) = h.1 n j found in
        elim (Bool-cases (e.beq k j)) [
          | inl same ↦
              let same' = (e.beq_iff k j).0 same in
              (
                r,
                subst (λ x. lookup x (insert k r records) ≡ some r) same'
                    (lookup-insert_self k r records),
                same_name ∙ ap name (one_value records same' old has) ∙ named,
              )
          | inr other ↦ (w, lookup-insert_other k j r records other ∙ has, named)
        ],
  )

  pub IsIndexed-remove :
      (k : K) (q : R) (records : Dict K R) (names : Dict N K)
      → IsIndexed records names
      → lookup k records ≡ some q
      → IsIndexed (delete k records) (delete (name q) names)
  IsIndexed-remove k q records names h old = (
    λ j w found.
        let (other, before) = found_after_delete k j w records found in
        lookup-delete_other (name q) (name w) names (
          other_key (name q) (name w) (λ same.
            clash ((e.beq_iff k j).1 (one_value names same (h.0 k q old) (h.0 j w before))) other))
        ∙ h.0 j w before,
    λ n j found.
        let (other, before) = found_after_delete (name q) n j names found in
        let (w, has, named) = h.1 n j before in
        (
          w,
          lookup-delete_other k j records (
                other_key k j (λ same.
                  clash
                    ((f.beq_iff (name q) n).1 (ap name (one_value records same old has) ∙ named))
                    other))
              ∙ has,
          named,
        ),
  )

  -- The record takes the given name, which no other has.
  pub IsIndexed-renamed :
      (k : K) (q r : R) (n : N) (records : Dict K R) (names : Dict N K)
      → IsIndexed records names
      → lookup k records ≡ some q
      → name r ≡ n
      → other_owner (lookup n names) k ≡ false
      → IsIndexed (insert k r records) (insert n k (delete (name q) names))
  IsIndexed-renamed k q r n records names h old named owner =
      subst (λ x. IsIndexed (insert k r records) (insert x k (delete (name q) names))) named
        (IsIndexed-rename k q r records names h old (
          owner_cases (lookup (name r) names) k
            (subst (λ x. other_owner (lookup x names) k ≡ false) (sym named) owner)))
