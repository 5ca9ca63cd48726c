-- ===== src/Service/Refinement.antt =====
-- The store of sessions against a specification in which the sessions are numbered without end.
use location_service.Base.{
  ℕ, suc, ◌+◌, ◌%◌, ◌^◌, ◌≤◌, ◌<◌, ◌≡◌, ◌∙◌, ap, sym, subst, refl, Bool, true, false, Option, none,
  some, List, [], ◌∷◌, if◌then◌else◌, if-of, All, arith,
}
use location_service.Base.Maps.{find, erase, erase-All, All-map}
use location_service.Criteria.{Criteria}
use location_service.Service.Permissions.{Manager}
use location_service.Service.Sessions.{
  Reply, session_path, error_creating, Element, Skeleton, start, next_index,
  add_to_session_store_for_path, remove_from_session_store_for_path, Event, requested,
  owner_changed, permitted, install, create_permitted, handle_create_session_for_criteria, step,
  run,
}

-- The sessions that live, by their numbers, and how many numbers were given out: no number is given twice, and
-- no request is refused for its number.
pub record Ledger (S : Type 0) : Type 0 where
  pub issued : ℕ
  pub live : List (ℕ × Element S)
  pub answers : List Reply

unfoldable pub requests : {Q : Type 0} → List (Event Q) → ℕ
requests [] = 0
requests (requested r ∷ vs) = suc (requests vs)
requests (owner_changed p ∷ vs) = requests vs

abbrev pub opening : {S : Type 0} → Ledger S
opening = record { issued = 0; live = []; answers = [] }

module _ {Q S : Type 0} (check : Manager Q) (create : Criteria Q → Option S)
    (watch : ℕ → Bool) where
  unfoldable pub open_session : ℕ → Option S → Ledger S → Ledger S
  open_session sender none a = record a {
    issued = suc a.issued;
    answers = error_creating ∷ a.answers;
  }
  open_session sender (some session) a =
      if watch sender
      then record {
        issued = suc a.issued;
        live = (a.issued, record { watched = sender; session = session }) ∷ a.live;
        answers = session_path a.issued ∷ a.answers;
      }
      else record a { issued = suc a.issued; answers = error_creating ∷ a.answers }

  unfoldable pub ask : ℕ → Option (Criteria Q) → Ledger S → Ledger S
  unfolding open_session
  ask sender none a = record a { answers = error_creating ∷ a.answers }
  ask sender (some criteria) a = open_session sender (create criteria) a

  unfoldable pub step_ledger : Event Q → Ledger S → Ledger S
  unfolding ask permitted erase
  step_ledger (requested r) a =
      ask r.sender (permitted check create watch r.criteria r.credentials) a
  step_ledger (owner_changed path) a = record a { live = erase path a.live }

  unfoldable pub run_ledger : List (Event Q) → Ledger S → Ledger S
  unfolding step_ledger
  run_ledger [] a = a
  run_ledger (v ∷ vs) a = run_ledger vs (step_ledger v a)

  Refines : Skeleton S → Ledger S → Type 0
  Refines s a =
      (s.index ≡ a.issued % 2 ^ 32)
      × (s.session_store ≡ a.live)
      × (s.replies ≡ a.answers)
      × All (λ x. x.0 < a.issued) a.live

  absent : (n : ℕ) (m : List (ℕ × Element S)) → All (λ x. x.0 < n) m → find n m ≡ none
  unfolding find
  absent n [] h = refl
  absent n ((p, e) ∷ rest) h = let k = absent n rest h.1 in let l = h.0 in ground arith

  more : (n : ℕ) (m : List (ℕ × Element S)) → All (λ x. x.0 < n) m → All (λ x. x.0 < suc n) m
  more n m h = All-map (λ x. x.0 < n) (λ x. x.0 < suc n) m (λ x l. omega arith) h

  same_index : (i n : ℕ) → n < 2 ^ 32 → i ≡ n % 2 ^ 32 → i ≡ n
  same_index i n l e = omega arith

  next : (i n : ℕ) → i ≡ n % 2 ^ 32 → suc i % 2 ^ 32 ≡ suc n % 2 ^ 32
  next i n e = omega arith

  -- Where the number is not in the store, the session comes into it under the number.
  add_new :
      (path : ℕ) (e : Element S) (s : Skeleton S)
      → find path s.session_store ≡ none
      → add_to_session_store_for_path path e s ≡ record s {
        session_store = (path, e) ∷ s.session_store;
        replies = session_path path ∷ s.replies;
      }
  unfolding add_to_session_store_for_path
  add_new path e s h = ground arith

  if-Refines :
      (b : Bool) (s t : Skeleton S) (x y : Ledger S)
      → Refines s x
      → Refines t y
      → Refines (if b then s else t) (if b then x else y)
  if-Refines true s t x y h k = h
  if-Refines false s t x y h k = k

  accept-Refines :
      (e : Element S) (s : Skeleton S) (a : Ledger S)
      → a.issued < 2 ^ 32
      → Refines s a
      → Refines (add_to_session_store_for_path s.index e (next_index s)) (record {
        issued = suc a.issued;
        live = (a.issued, e) ∷ a.live;
        answers = session_path a.issued ∷ a.answers;
      })
  unfolding Refines
  accept-Refines e s a l h =
      let q = same_index s.index a.issued l h.0 in
      let free =
        subst (λ m. find s.index m ≡ none) (sym h.1)
          (subst (λ i. find i a.live ≡ none) (sym q) (absent a.issued a.live h.3)) in
      subst
        (λ t. Refines t (record {
          issued = suc a.issued;
          live = (a.issued, e) ∷ a.live;
          answers = session_path a.issued ∷ a.answers;
        }))
        (sym (add_new s.index e (next_index s) free))
        (
          next s.index a.issued h.0,
          ap (λ i. (i, e) ∷ s.session_store) q ∙ ap (λ m. (a.issued, e) ∷ m) h.1,
          ap (λ i. session_path i ∷ s.replies) q ∙ ap (λ m. session_path a.issued ∷ m) h.2,
          (omega arith, more a.issued a.live h.3),
        )

  install-Refines :
      (sender : ℕ) (o : Option S) (s : Skeleton S) (a : Ledger S)
      → a.issued < 2 ^ 32
      → Refines s a
      → Refines
          (install check create watch s.index sender o (next_index s))
          (open_session sender o a)
  unfolding Refines install open_session
  install-Refines sender none s a l h =
      (next s.index a.issued h.0, h.1, ap (λ r. error_creating ∷ r) h.2, more a.issued a.live h.3)
  install-Refines sender (some x) s a l h =
      if-Refines (watch sender) _ _ _ _
        (accept-Refines (record { watched = sender; session = x }) s a l h)
        (next s.index a.issued h.0, h.1, ap (λ r. error_creating ∷ r) h.2, more a.issued a.live h.3)

  ask-Refines :
      (sender : ℕ) (o : Option (Criteria Q)) (s : Skeleton S) (a : Ledger S)
      → a.issued < 2 ^ 32
      → Refines s a
      → Refines (create_permitted check create watch sender o s) (ask sender o a)
  unfolding create_permitted ask Refines
  ask-Refines sender none s a l h = (h.0, h.1, ap (λ r. error_creating ∷ r) h.2, h.3)
  ask-Refines sender (some c) s a l h = install-Refines sender (create c) s a l h

  remove-Refines :
      (p : ℕ) (s : Skeleton S) (a : Ledger S)
      → Refines s a
      → Refines (remove_from_session_store_for_path p s) (record a { live = erase p a.live })
  unfolding remove_from_session_store_for_path Refines
  remove-Refines p s a h =
      (h.0, ap (erase p) h.1, h.2, erase-All (λ x. x.0 < a.issued) p a.live h.3)

  step-Refines :
      (v : Event Q) (s : Skeleton S) (a : Ledger S)
      → a.issued < 2 ^ 32
      → Refines s a
      → Refines (step check create watch v s) (step_ledger v a)
  unfolding step step_ledger handle_create_session_for_criteria
  step-Refines (requested r) s a l h =
      ask-Refines r.sender (permitted check create watch r.criteria r.credentials) s a l h
  step-Refines (owner_changed p) s a l h = remove-Refines p s a h

  ask-issued :
      (sender : ℕ) (o : Option (Criteria Q)) (a : Ledger S) → (ask sender o a).issued ≤ suc a.issued
  unfolding ask open_session
  ask-issued sender none a = omega arith
  ask-issued sender (some c) a =
      elim (create c) as (λ o. (open_session sender o a).issued ≤ suc a.issued) [
        | none ↦ omega arith
        | some x ↦
            if-of {A = Ledger S} (λ t. t.issued ≤ suc a.issued) (watch sender) _ _
              (λ _. omega arith) (λ _. omega arith)
      ]

  run-Refines :
      (vs : List (Event Q)) (s : Skeleton S) (a : Ledger S)
      → a.issued + requests vs ≤ 2 ^ 32
      → Refines s a
      → Refines (run check create watch vs s) (run_ledger vs a)
  unfolding run run_ledger requests step_ledger step
  run-Refines [] s a l h = h
  run-Refines (requested r ∷ vs) s a l h =
      let k = ask-issued r.sender (permitted check create watch r.criteria r.credentials) a in
      run-Refines vs _ _ (omega arith) (step-Refines (requested r) s a (omega arith) h)
  run-Refines (owner_changed p ∷ vs) s a l h = run-Refines vs _ _ l (remove-Refines p s a h)

-- While at most 2 ^ 32 requests have come since the start, the store of sessions and the replies are those of
-- the specification: every session has a number of its own, which no earlier session had, and no request is
-- refused because of a session that is there.
pub run-refines_ledger :
    {Q S : Type 0} (check : Manager Q) (create : Criteria Q → Option S) (watch : ℕ → Bool)
    (vs : List (Event Q))
    → requests vs ≤ 2 ^ 32
    → let s = run check create watch vs start in
      let a = run_ledger check create watch vs opening in
      (s.session_store ≡ a.live) × (s.replies ≡ a.answers)
unfolding Refines
run-refines_ledger check create watch vs l =
    let h = run-Refines check create watch vs start opening (omega arith) (refl, refl, refl, tt) in
    (h.1, h.2)
