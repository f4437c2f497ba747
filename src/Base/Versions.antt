-- ===== src/Base/Versions.antt =====
-- Records that keep all their revisions, the first with number 1, in a dictionary beside the current ones.
use Prim.Native.Nat.{ℕ, zero, suc, ◌+◌}
use mathlib.Core.Path.{◌≡◌, subst}
use mathlib.Core.Option.{some}
use mathlib.Core.List.{List, [], ◌∷◌, ◌++◌}
use mathlib.Core.Logic.{inl, inr}
use native.Mathlib.Omega.{arith}
use smarttest_platform.Base.Tests.{Eq}
use smarttest_platform.Base.Dict.{
  Dict, lookup, insert, found_after_insert, lookup-insert, lookup-insert_self,
}
use smarttest_platform.Base.Lists.{length, get_elem?, length-append}

module _ {ℓ} {R : Type ℓ} (number : R → ℕ) where
  -- The records stand in the order of their numbers, which start at n.
  abbrev pub Numbered : ℕ → List R → Type 0
  Numbered n [] = Unit
  Numbered n (r ∷ rs) = (number r ≡ n) × Numbered (suc n) rs

  pub Numbered-snoc :
      (n : ℕ) (rs : List R) (r : R)
      → Numbered n rs
      → number r ≡ n + length rs
      → Numbered n (rs ++ (r ∷ []))
  Numbered-snoc n [] r h e = (omega (arith, e), tt)
  Numbered-snoc n (x ∷ rs) r h e = (h.0, Numbered-snoc (suc n) rs r h.1 (omega (arith, e)))

  pub Numbered-length :
      (n : ℕ) (rs : List R) (r : R) → Numbered n (rs ++ (r ∷ [])) → number r ≡ n + length rs
  Numbered-length n [] r h = omega (arith, h.0)
  Numbered-length n (x ∷ rs) r h = omega (arith, Numbered-length (suc n) rs r h.1)

  -- The record at a place has the number of the place.
  pub Numbered-at :
      (n i : ℕ) (rs : List R) (r : R) → Numbered n rs → get_elem? rs i ≡ some r → number r ≡ n + i
  Numbered-at n i [] r h e = cc
  Numbered-at n zero (x ∷ rs) r h e = ground (arith, h.0, e)
  Numbered-at n (suc i) (x ∷ rs) r h e = omega (arith, Numbered-at (suc n) i rs r h.1 e)

module _ {ℓ κ} {K : Type κ} {R : Type ℓ} (number : R → ℕ) ⦃e : Eq K⦄ where
  -- What is kept of a record: revisions numbered from 1, of which it is the last.
  abbrev pub Ends : K → R → Dict K (List R) → Type ℓ
  Ends k r revisions =
      (older : List R) × (lookup k revisions ≡ some (older ++ (r ∷ [])))
      × Numbered number 1 (older ++ (r ∷ []))

  -- The history of each current record is kept, ends in it, and is numbered from 1.
  abbrev pub IsHistory : Dict K R → Dict K (List R) → Type (ℓ ⊔ κ)
  IsHistory current revisions = (k : K) (r : R) → lookup k current ≡ some r → Ends k r revisions

  pub IsHistory-put :
      (k : K) (r : R) (older : List R) (current : Dict K R) (revisions : Dict K (List R))
      → IsHistory current revisions
      → Numbered number 1 (older ++ (r ∷ []))
      → IsHistory (insert k r current) (insert k (older ++ (r ∷ [])) revisions)
  IsHistory-put k r older current revisions h numbered j w found =
      elim (found_after_insert k j r w current found) [
        | inl (same, value) ↦
            subst (λ x. Ends j x (insert k (older ++ (r ∷ [])) revisions)) value
              (subst (λ x. Ends x r (insert k (older ++ (r ∷ [])) revisions)) same
                (older, lookup-insert_self k (older ++ (r ∷ [])) revisions, numbered))
        | inr (other, before) ↦
            let (past, kept, good) = h j w before in (past, rw (lookup-insert, other) kept, good)
      ]

  -- The next revision is appended.
  pub IsHistory-append :
      (k : K) (r r' : R) (older : List R) (current : Dict K R) (revisions : Dict K (List R))
      → IsHistory current revisions
      → Numbered number 1 (older ++ (r ∷ []))
      → number r' ≡ number r + 1
      → IsHistory (insert k r' current) (insert k ((older ++ (r ∷ [])) ++ (r' ∷ [])) revisions)
  IsHistory-append k r r' older current revisions h numbered next =
      IsHistory-put k r' (older ++ (r ∷ [])) current revisions h (
        Numbered-snoc number 1 (older ++ (r ∷ [])) r' numbered (
          omega
            (arith, next, Numbered-length number 1 older r numbered, length-append older (r ∷ []))))
