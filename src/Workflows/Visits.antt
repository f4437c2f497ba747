-- ===== src/Workflows/Visits.antt =====
-- The search of services/api/data_factory_domain.py comes to an end.
use smarttest_platform.Base.{
  ℕ, zero, suc, ◌+◌, ◌≤◌, ◌<◌, ◌∷◌, [], List, Bool, true, false, some, Result, ok, err, ◌≡◌, refl,
  ◌∙◌, Option-cases, Bool-cases, Result-cases, arith, inl, inr, length, bind, if◌then◌else◌,
}
use smarttest_platform.Base.Dict.{Dict, lookup, insert}
use smarttest_platform.Base.Int.{ℤ}
use smarttest_platform.Base.Text.{Text, text_eq, text_beq}
use mathlib.Core.Path.{subst}
use smarttest_platform.Workflows.Graphs.{
  release, visit, next_visit, minus_one, is_nothing_left, entry,
}

-- Nodes that wait for others.
abbrev waits : ℤ → Bool
waits (ℤ.pos (suc n)) = true
waits _ = false

abbrev pub waiting : Dict Text ℤ → ℕ
waiting [] = 0
waiting ((k, z) ∷ d) = if waits z then suc (waiting d) else waiting d

waits_less :
    (z : ℤ) (n : ℕ)
    → (if waits (minus_one z) then suc n else n) + (if is_nothing_left (minus_one z) then 1 else 0)
      ≤ (if waits z then suc n else n)
waits_less (ℤ.pos zero) n = omega arith
waits_less (ℤ.pos (suc zero)) n = omega arith
waits_less (ℤ.pos (suc (suc m))) n = omega arith
waits_less (ℤ.negsuc m) n = omega arith

-- A node whose last predecessor is done waits no more.
waiting-insert :
    (t : Text) (z : ℤ) (d : Dict Text ℤ)
    → lookup t d ≡ some z
    → waiting (insert t (minus_one z) d) + (if is_nothing_left (minus_one z) then 1 else 0)
      ≤ waiting d
unfolding lookup insert
waiting-insert t z [] h = absurd cc
waiting-insert t z ((k, w) ∷ d) h = elim (Bool-cases (text_beq k t)) [
  | inl e ↦ rw e (
      subst
        (λ x.
          (if waits (minus_one z) then suc (waiting d) else waiting d)
            + (if is_nothing_left (minus_one z) then 1 else 0)
          ≤ (if waits x then suc (waiting d) else waiting d))
        (here e h) (waits_less z (waiting d)))
  | inr e ↦ rw e (later (waits w) (waiting-insert t z d (rest e h)))
]
  where
    here : text_beq k t ≡ true → lookup t ((k, w) ∷ d) ≡ some z → z ≡ w
    here e = rw e (λ f. cc)

    rest : text_beq k t ≡ false → lookup t ((k, w) ∷ d) ≡ some z → lookup t d ≡ some z
    rest e = rw e (λ f. f)

    later :
        (b : Bool)
        → waiting (insert t (minus_one z) d) + (if is_nothing_left (minus_one z) then 1 else 0)
          ≤ waiting d
        → (if b
              then suc (waiting (insert t (minus_one z) d))
              else waiting (insert t (minus_one z) d))
            + (if is_nothing_left (minus_one z) then 1 else 0)
          ≤ (if b then suc (waiting d) else waiting d)
    later true h = omega (arith, h)
    later false h = h

abbrev pub measure : Dict Text ℤ × List Text → ℕ
measure p = length p.1 + waiting p.0

-- What is ready and what waits, together, does not grow.
release-measure :
    (ts : List Text) (remaining : Dict Text ℤ) (ready : List Text) (p : Dict Text ℤ × List Text)
    → release ts remaining ready ≡ ok p
    → measure p ≤ length ready + waiting remaining
unfolding release
release-measure [] remaining ready p = λ h.
    subst (λ (q : Dict Text ℤ × List Text). measure q ≤ length ready + waiting remaining)
      (given (remaining, ready) h) (omega arith)
  where
    given : (q : Dict Text ℤ × List Text) → ok q ≡ ok p → q ≡ p
    given q h = cc
release-measure (t ∷ ts) remaining ready p = elim (Option-cases (lookup t remaining)) [
  | inl e ↦ rw e (λ h. cc)
  | inr (n, e) ↦ rw e (λ h.
      bounded (is_nothing_left (minus_one n)) (waiting (insert t (minus_one n) remaining))
        (waiting-insert t n remaining e)
        (release-measure ts (insert t (minus_one n) remaining)
          (if is_nothing_left (minus_one n) then t ∷ ready else ready) p h))
]
  where
    bounded :
        (b : Bool) (w : ℕ)
        → w + (if b then 1 else 0) ≤ waiting remaining
        → measure p ≤ length (if b then t ∷ ready else ready) + w
        → measure p ≤ length ready + waiting remaining
    bounded true w h g = omega (arith, h, g)
    bounded false w h g = omega (arith, h, g)

-- The search has a result, whatever the fuel above the bound.
abbrev pub Finishes : ℕ → Dict Text (List Text) → Dict Text ℤ → List Text → ℕ → Type 0
Finishes m outgoing remaining ready visited =
    (out : Result ℕ) × ((fuel : ℕ)
      → m < fuel
      → visit fuel outgoing remaining ready visited ≡ some out)

visit-stop :
    (m : ℕ) (outgoing : Dict Text (List Text)) (remaining : Dict Text ℤ) (visited : ℕ)
    → Finishes m outgoing remaining [] visited
unfolding visit
visit-stop m outgoing remaining visited = (ok visited, result)
  where
    result : (fuel : ℕ) → m < fuel → visit fuel outgoing remaining [] visited ≡ some (ok visited)
    result zero enough = absurd (omega (arith, enough))
    result (suc fuel) enough = refl

visit-step :
    (fuel : ℕ) (outgoing : Dict Text (List Text)) (remaining : Dict Text ℤ) (current : Text)
    (ready : List Text) (visited : ℕ) (r : Result (Dict Text ℤ × List Text))
    → bind (entry (lookup current outgoing)) (λ targets. release targets remaining ready) ≡ r
    → visit (suc fuel) outgoing remaining (current ∷ ready) visited
      ≡ next_visit (λ remaining' ready'. visit fuel outgoing remaining' ready' (visited + 1)) r
unfolding visit
visit-step fuel outgoing remaining current ready visited r e = rw e refl

released-measure :
    (outgoing : Dict Text (List Text)) (remaining : Dict Text ℤ) (current : Text)
    (ready : List Text) (p : Dict Text ℤ × List Text)
    → bind (entry (lookup current outgoing)) (λ targets. release targets remaining ready) ≡ ok p
    → measure p ≤ length ready + waiting remaining
released-measure outgoing remaining current ready p =
    elim (Option-cases (lookup current outgoing)) [
      | inl e ↦ rw e (λ h. cc)
      | inr (targets, e) ↦ rw e (λ h. release-measure targets remaining ready p h)
    ]

-- The search of the graph ends: with `m` at least the number of nodes that are ready or wait for
-- others, it returns or raises within m + 1 rounds, and more fuel gives the same result. It does so
-- on any graph, with a cycle or without.
pub visit-Finishes :
    (m : ℕ) (outgoing : Dict Text (List Text)) (remaining : Dict Text ℤ) (ready : List Text)
    (visited : ℕ)
    → length ready + waiting remaining ≤ m
    → Finishes m outgoing remaining ready visited
unfolding next_visit
visit-Finishes m outgoing remaining [] visited small = visit-stop m outgoing remaining visited
visit-Finishes zero outgoing remaining (current ∷ ready) visited small =
    absurd (omega (arith, small))
visit-Finishes (suc m) outgoing remaining (current ∷ ready) visited small =
    elim (Result-cases
      (bind (entry (lookup current outgoing)) (λ targets. release targets remaining ready))) [
        | inr (x, e) ↦ go (err x) e (err x, λ fuel enough. refl)
        | inl (p, e) ↦ go (ok p) e (
            visit-Finishes m outgoing p.0 p.1 (visited + 1)
              (omega (arith, small, released-measure outgoing remaining current ready p e)))
      ]
  where
    go :
        (r : Result (Dict Text ℤ × List Text))
        → bind (entry (lookup current outgoing)) (λ targets. release targets remaining ready) ≡ r
        → ((out : Result ℕ) × ((fuel : ℕ)
              → m < fuel
              → next_visit
                  (λ remaining' ready'. visit fuel outgoing remaining' ready' (visited + 1))
                  r
                ≡ some out))
        → Finishes (suc m) outgoing remaining (current ∷ ready) visited
    go r e (out, h) = (out, λ fuel enough. later fuel enough h)
      where
        later :
            (fuel : ℕ)
            → suc m < fuel
            → ((f : ℕ)
                → m < f
                → next_visit
                    (λ remaining' ready'. visit f outgoing remaining' ready' (visited + 1))
                    r
                  ≡ some out)
            → visit fuel outgoing remaining (current ∷ ready) visited ≡ some out
        later zero enough h = absurd (omega (arith, enough))
        later (suc f) enough h =
            visit-step f outgoing remaining current ready visited r e ∙ h f (omega (arith, enough))
