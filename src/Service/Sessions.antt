-- ===== src/Service/Sessions.antt =====
-- The store of sessions: skeleton.cpp of the service.
use location_service.Base.{
  ℕ, suc, ◌%◌, ◌^◌, Bool, Option, none, some, List, [], ◌∷◌, if◌then◌else◌, is_some,
}
use location_service.Base.Maps.{find, erase}
use location_service.Criteria.{Criteria}
use location_service.Service.Permissions.{Verdict, granted, rejected, Credentials, Manager}

-- A message that asks for a session: who sent it, and what reading the criteria and resolving the credentials
-- give, where an exception is none.
pub record Request (Q : Type 0) : Type 0 where
  pub sender : ℕ
  pub criteria : Option (Criteria Q)
  pub credentials : Option Credentials

-- The session's object path, or one of the two errors.
pub data Reply : Type 0 where
  session_path : ℕ → Reply
  refused_second : Reply
  error_creating : Reply

-- `Element`: the name that the watcher watches, and the session.
pub record Element (S : Type 0) : Type 0 where
  pub watched : ℕ
  pub session : S

-- `index` is the static variable of the path generator: "/sessions/<index>" is the path.
pub record Skeleton (S : Type 0) : Type 0 where
  pub index : ℕ
  pub session_store : List (ℕ × Element S)
  pub replies : List Reply

abbrev pub start : {S : Type 0} → Skeleton S
start = record { index = 0; session_store = []; replies = [] }

abbrev pub reply : {S : Type 0} → Reply → Skeleton S → Skeleton S
reply r s = record s { replies = r ∷ s.replies }

-- `index++` on 32 bits
abbrev pub next_index : {S : Type 0} → Skeleton S → Skeleton S
next_index s = record s { index = suc s.index % 2 ^ 32 }

-- `add_to_session_store_for_path` with the reply.
unfoldable pub add_to_session_store_for_path :
    {S : Type 0} → ℕ → Element S → Skeleton S → Skeleton S
unfolding find
add_to_session_store_for_path path e s =
    if is_some (find path s.session_store)
    then reply refused_second s
    else reply (session_path path) (record s { session_store = (path, e) ∷ s.session_store })

unfoldable pub remove_from_session_store_for_path : {S : Type 0} → ℕ → Skeleton S → Skeleton S
unfolding erase
remove_from_session_store_for_path path s = record s { session_store = erase path s.session_store }

-- What happens to the skeleton: a request, or the watcher of a session's path tells that the owner changed.
pub data Event (Q : Type 0) : Type 0 where
  requested : Request Q → Event Q
  owner_changed : ℕ → Event Q

-- The permission manager, `create_session_for_criteria`, and whether a name's service can be watched; what
-- throws gives none, or false.
module _ {Q S : Type 0} (check : Manager Q) (create : Criteria Q → Option S)
    (watch : ℕ → Bool) where
  abbrev admit : Criteria Q → Verdict → Option (Criteria Q)
  admit criteria granted = some criteria
  admit criteria rejected = none

  unfoldable pub permitted : Option (Criteria Q) → Option Credentials → Option (Criteria Q)
  permitted (some criteria) (some credentials) = admit criteria (check criteria credentials)
  permitted _ _ = none

  unfoldable pub install : ℕ → ℕ → Option S → Skeleton S → Skeleton S
  unfolding add_to_session_store_for_path
  install path sender none s = reply error_creating s
  install path sender (some session) s =
      if watch sender
      then add_to_session_store_for_path path (record { watched = sender; session = session }) s
      else reply error_creating s

  unfoldable pub create_permitted : ℕ → Option (Criteria Q) → Skeleton S → Skeleton S
  unfolding install
  create_permitted sender none s = reply error_creating s
  create_permitted sender (some criteria) s =
      install s.index sender (create criteria) (next_index s)

  unfoldable pub handle_create_session_for_criteria : Request Q → Skeleton S → Skeleton S
  unfolding create_permitted permitted
  handle_create_session_for_criteria r s =
      create_permitted r.sender (permitted r.criteria r.credentials) s

  unfoldable pub step : Event Q → Skeleton S → Skeleton S
  unfolding handle_create_session_for_criteria remove_from_session_store_for_path
  step (requested r) s = handle_create_session_for_criteria r s
  step (owner_changed path) s = remove_from_session_store_for_path path s

  unfoldable pub run : List (Event Q) → Skeleton S → Skeleton S
  unfolding step
  run [] s = s
  run (v ∷ vs) s = run vs (step v s)
