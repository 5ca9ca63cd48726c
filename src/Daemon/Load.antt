-- ===== src/Daemon/Load.antt =====
-- `Daemon::load_providers`: the configured providers are made and added to the engine.
use location_service.Base.{◌≡◌, ap, Option, none, some, List, [], ◌∷◌, ◌++◌}
use location_service.Factory.{create_provider_for_name_with_config}
use location_service.Daemon.Options.{Text, same_text}
use location_service.Base.{if◌then◌else◌}

-- `provider_options.count(name) > 0 ? provider_options.at(name) : Configuration{}`
unfoldable pub options_for : {C : Type 0} → C → Text → List (Text × C) → C
options_for empty name [] = empty
options_for empty name ((n, c) ∷ rest) =
    let later = options_for empty name rest in if same_text n name then c else later

-- A factory and the engine's `add_provider` may throw, which is `none`: the exception ends up in a future that nobody
-- asks, and the loop goes on. The future is destroyed at the end of its round, which waits for the task.
module _ {C P E : Type 0} (store : List (Text × (C → Option P))) (empty : C)
    (add_provider : P → E → Option E) where
  unfoldable pub make : List (Text × C) → Text → Option P
  unfolding create_provider_for_name_with_config options_for
  make options name =
      elim (create_provider_for_name_with_config name (options_for empty name options) store) [
        | none ↦ none
        | some p ↦ p
      ]

  unfoldable pub load_one : Option P → E → E
  load_one none e = e
  load_one (some p) e = elim (add_provider p e) [ none ↦ e | some after ↦ after ]

  unfoldable pub load_providers : List (Text × C) → List Text → E → E
  unfolding make load_one
  load_providers options [] e = e
  load_providers options (name ∷ rest) e =
      load_providers options rest (load_one (make options name) e)

  -- A provider that cannot be made, wherever it stands in the list, does not keep the others from being added.
  load_providers-make :
      (options : List (Text × C)) (before after : List Text) (name : Text) (e : E)
      → make options name ≡ none
      → load_providers options (before ++ (name ∷ after)) e
        ≡ load_providers options (before ++ after) e
  unfolding load_providers
  load_providers-make options [] after name e h =
      ap (λ p. load_providers options after (load_one p e)) h
  load_providers-make options (n ∷ before) after name e h =
      load_providers-make options before after name (load_one (make options n) e) h
