-- ===== src/Base/Maps.antt =====
-- A map whose keys are numbers, as a list of pairs in no order, and a set of numbers, with their operations.
use location_service.Base.Lists.{All, contains}
use location_service.Base.Tests.{◌==◌, ==_iff, Bool-cases, if-of, if◌then◌else◌}
use Prim.Native.Nat.{ℕ}
use mathlib.Core.Path.{◌≡◌, refl, sym, subst}
use mathlib.Core.Logic.{inl, inr}
use mathlib.Core.Bool.{false}
use mathlib.Core.Option.{Option, none, some}
use mathlib.Core.List.{List, [], ◌∷◌}
use native.Mathlib.Omega.{arith}

unfoldable pub find {ℓ} : {V : Type ℓ} → ℕ → List (ℕ × V) → Option V
find p [] = none
find p ((q, v) ∷ rest) = let later = find p rest in if q == p then some v else later

unfoldable pub erase {ℓ} : {V : Type ℓ} → ℕ → List (ℕ × V) → List (ℕ × V)
erase p [] = []
erase p ((q, v) ∷ rest) = let later = erase p rest in if q == p then later else (q, v) ∷ later

unfoldable pub assign {ℓ} : {V : Type ℓ} → ℕ → V → List (ℕ × V) → List (ℕ × V)
assign p w [] = []
assign p w ((q, v) ∷ rest) =
    let later = assign p w rest in if q == p then (q, w) ∷ later else (q, v) ∷ later

unfoldable pub forget : ℕ → List ℕ → List ℕ
forget p [] = []
forget p (q ∷ rest) = let later = forget p rest in if q == p then later else q ∷ later

-- What holds of every pair of a map.
module _ {ℓ κ} {V : Type ℓ} (Q : ℕ × V → Type κ) where
  pub assign-All : (p : ℕ) (w : V) (m : List (ℕ × V)) → Q (p, w) → All Q m → All Q (assign p w m)
  unfolding assign
  assign-All p w [] h k = k
  assign-All p w ((q, v) ∷ rest) h k =
      if-of (All Q) (q == p) _ _
        (λ e. (subst (λ i. Q (i, w)) (sym ((==_iff q p).0 e)) h, assign-All p w rest h k.1))
        (λ _. (k.0, assign-All p w rest h k.1))

  pub find-All : (p : ℕ) (v : V) (m : List (ℕ × V)) → All Q m → find p m ≡ some v → Q (p, v)
  unfolding find
  find-All p v [] h e = ground arith
  find-All p v ((q, u) ∷ rest) h e = elim (Bool-cases (q == p)) [
    | inl k ↦ subst (λ i. Q (i, v)) ((==_iff q p).0 k) (subst (λ y. Q (q, y)) (ground arith) h.0)
    | inr k ↦ find-All p v rest h.1 (ground arith)
  ]

-- Without a key, the other keys are what is left.
module _ {ℓ κ ι} {V : Type ℓ} (Q : ℕ × V → Type κ) (R : ℕ × V → Type ι) (p : ℕ)
    (f : (x : ℕ × V) → (x.0 == p) ≡ false → Q x → R x) where
  pub erase-All_other : (m : List (ℕ × V)) → All Q m → All R (erase p m)
  unfolding erase
  erase-All_other [] h = tt
  erase-All_other ((q, v) ∷ rest) h =
      if-of (All R) (q == p) _ _ (λ _. erase-All_other rest h.1)
        (λ e. (f (q, v) e h.0, erase-All_other rest h.1))

  pub find-All_other : (m : List (ℕ × V)) → find p m ≡ none → All Q m → All R m
  unfolding find
  find-All_other [] e h = tt
  find-All_other ((q, v) ∷ rest) e h =
      (f (q, v) (ground arith) h.0, find-All_other rest (ground arith) h.1)

pub erase-All {ℓ κ} :
    {V : Type ℓ} (Q : ℕ × V → Type κ) (p : ℕ) (m : List (ℕ × V)) → All Q m → All Q (erase p m)
erase-All Q p = erase-All_other Q Q p (λ x e h. h)

pub All-map {ℓ κ} :
    {A : Type ℓ} (P Q : A → Type κ) (xs : List A) → ((x : A) → P x → Q x) → All P xs → All Q xs
All-map P Q [] f h = tt
All-map P Q (x ∷ xs) f h = (f x h.0, All-map P Q xs f h.1)

pub contains-forget_other :
    (p q : ℕ) (m : List ℕ) → (p == q) ≡ false → contains (forget q m) p ≡ contains m p
unfolding forget
contains-forget_other p q [] h = refl
contains-forget_other p q (r ∷ rest) h = let k = contains-forget_other p q rest h in ground arith
