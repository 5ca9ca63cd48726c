-- ===== src/Factory.antt =====
-- provider_factory.cpp: providers by their names. A name is the list of its characters' codes.
use location_service.Base.{
  ℕ, ◌==◌, ◌≡◌, refl, ap, ◌∙◌, Bool, true, false, ◌&&◌, Option, none, some, List, [], ◌∷◌, ◌++◌,
  map, if◌then◌else◌, contains, arith,
}

-- The code of '@'.
abbrev at_sign : ℕ
at_sign = 64

-- `name.substr(0, name.find("@"))`: without an '@', `find` gives a number that is beyond the name's end.
unfoldable pub extract_undecorated_name : List ℕ → List ℕ
extract_undecorated_name [] = []
extract_undecorated_name (c ∷ cs) =
    let rest = extract_undecorated_name cs in if c == at_sign then [] else c ∷ rest

unfoldable pub same_name : List ℕ → List ℕ → Bool
same_name [] [] = true
same_name (c ∷ cs) (d ∷ ds) = c == d && same_name cs ds
same_name _ _ = false

-- `C` stands for configurations and `P` for providers; a factory may return a null pointer, but that is a
-- provider here.
module _ {C P : Type 0} where
  -- `factory_store.at`, where it has the name.
  unfoldable pub at : List ℕ → List (List ℕ × (C → P)) → Option (C → P)
  unfolding same_name
  at name [] = none
  at name ((n, f) ∷ rest) = let later = at name rest in if same_name n name then some f else later

  -- `factory_store[name] = factory`
  unfoldable pub add_factory_for_name :
      List ℕ → (C → P) → List (List ℕ × (C → P)) → List (List ℕ × (C → P))
  unfolding same_name
  add_factory_for_name name g [] = (name, g) ∷ []
  add_factory_for_name name g ((n, f) ∷ rest) =
      let later = add_factory_for_name name g rest in
      if same_name n name then (n, g) ∷ rest else (n, f) ∷ later

  abbrev pub made : Option (C → P) → C → Option P
  made none config = none
  made (some f) config = some (f config)

  -- Both functions of this name: the provider that is returned, or that the callback is called with.
  unfoldable pub create_provider_for_name_with_config :
      List ℕ → C → List (List ℕ × (C → P)) → Option P
  unfolding at extract_undecorated_name
  create_provider_for_name_with_config name config store =
      made (at (extract_undecorated_name name) store) config

  -- The names that `enumerate` passes on with their factories.
  unfoldable pub enumerate : List (List ℕ × (C → P)) → List (List ℕ)
  enumerate store = map (λ x. x.0) store

same_name_refl : (n : List ℕ) → same_name n n ≡ true
unfolding same_name
same_name_refl [] = refl
same_name_refl (c ∷ cs) = let h = same_name_refl cs in ground arith

same_name_trans : (a b c : List ℕ) → same_name a b ≡ true → same_name a c ≡ same_name b c
unfolding same_name
same_name_trans [] [] c h = refl
same_name_trans [] (y ∷ ys) c h = ground arith
same_name_trans (x ∷ xs) [] c h = ground arith
same_name_trans (x ∷ xs) (y ∷ ys) [] h = refl
same_name_trans (x ∷ xs) (y ∷ ys) (z ∷ zs) h = let k = same_name_trans xs ys zs in ground arith

extract-decorated :
    (n d : List ℕ) → contains n at_sign ≡ false → extract_undecorated_name (n ++ (at_sign ∷ d)) ≡ n
unfolding extract_undecorated_name
extract-decorated [] d h = refl
extract-decorated (c ∷ cs) d h = let k = extract-decorated cs d in ground arith

at-add_same :
    {C P : Type 0} (n : List ℕ) (g : C → P) (store : List (List ℕ × (C → P)))
    → at n (add_factory_for_name n g store) ≡ some g
unfolding at add_factory_for_name
at-add_same n g [] = let h = same_name_refl n in ground arith
at-add_same n g ((m, f) ∷ rest) = let h = at-add_same n g rest in ground arith

at-add_other :
    {C P : Type 0} (n m : List ℕ) (g : C → P) (store : List (List ℕ × (C → P)))
    → same_name n m ≡ false
    → at m (add_factory_for_name n g store) ≡ at m store
unfolding at add_factory_for_name
at-add_other n m g [] h = ground arith
at-add_other n m g ((k, f) ∷ rest) h =
    let r = at-add_other n m g rest h in let t = same_name_trans k n m in ground arith

-- A factory that is added under a name without an '@' serves that name with whatever decoration follows an
-- '@', and what is created for a name that differs from it before its '@' is as it was.
pub create-add :
    {C P : Type 0} (n d m : List ℕ) (g : C → P) (config : C) (store : List (List ℕ × (C → P)))
    → contains n at_sign ≡ false
    → same_name n (extract_undecorated_name m) ≡ false
    → (create_provider_for_name_with_config
          (n ++ (at_sign ∷ d))
          config
          (add_factory_for_name n g store)
        ≡ some (g config))
      × (create_provider_for_name_with_config m config (add_factory_for_name n g store)
          ≡ create_provider_for_name_with_config m config store)
unfolding create_provider_for_name_with_config
create-add n d m g config store h k = (
  ap (λ x. made (at x (add_factory_for_name n g store)) config) (extract-decorated n d h)
      ∙ ap (λ o. made o config) (at-add_same n g store),
  ap (λ o. made o config) (at-add_other n (extract_undecorated_name m) g store k),
)
