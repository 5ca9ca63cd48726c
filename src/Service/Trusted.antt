-- ===== src/Service/Trusted.antt =====
-- Which clients the store of sessions serves.
use location_service.Base.{
  ℕ, ◌≡◌, subst, refl, ◌↔◌, ◌⊎◌, Bool, true, false, Option, none, some, if-of, inl, inr, arith,
}
use location_service.Base.Maps.{find}
use location_service.Criteria.{Criteria}
use location_service.Service.Permissions.{
  Verdict, Manager, Credentials, Answer, RequestParameters, trust_store_manager, ask_agent,
  verdict_of,
}
use location_service.Service.Sessions.{
  Request, Element, Skeleton, next_index, add_to_session_store_for_path, permitted, install,
  create_permitted, handle_create_session_for_criteria,
}

verdict_of-granted :
    (a : Option Answer) → (verdict_of a ≡ Verdict.granted) ↔ (a ≡ some Answer.granted)
unfolding verdict_of
verdict_of-granted none = ground arith
verdict_of-granted (some Answer.granted) = ground arith
verdict_of-granted (some Answer.denied) = ground arith

ask_agent-granted :
    (testing : Bool) (profile_of : ℕ → Option ℕ) (authenticate : RequestParameters → Option Answer)
    (k : Credentials) (o : Option ℕ)
    → (ask_agent testing profile_of authenticate k o ≡ Verdict.granted) ↔ (
        (p : ℕ) × (o ≡ some p)
        × (authenticate (record { uid = k.uid; pid = k.pid; profile = p }) ≡ some Answer.granted))
unfolding ask_agent verdict_of
ask_agent-granted testing profile_of authenticate k none =
    (λ e. ground arith, λ e. let q = e.1 in ground arith)
ask_agent-granted testing profile_of authenticate k (some p) =
    let v = verdict_of-granted (authenticate (record { uid = k.uid; pid = k.pid; profile = p })) in
    (
      λ e. (p, refl, v.0 e),
      λ e. v.1 (
          subst
            (λ q.
              authenticate (record { uid = k.uid; pid = k.pid; profile = q }) ≡ some Answer.granted)
            (ground arith) e.2),
    )

-- The trust-store's manager grants a request exactly if the service runs under testing, or the profile of the
-- client's process is known and the agent grants the request for that process, user and profile. An exception on
-- the way never grants.
pub trust_store_manager-granted :
    {Q : Type 0} (testing : Bool) (profile_of : ℕ → Option ℕ)
    (authenticate : RequestParameters → Option Answer) (c : Criteria Q) (k : Credentials)
    → (trust_store_manager testing profile_of authenticate c k ≡ Verdict.granted) ↔ (
        (testing ≡ true)
        ⊎ ((p : ℕ) × (profile_of k.pid ≡ some p)
            × (authenticate (record { uid = k.uid; pid = k.pid; profile = p })
                ≡ some Answer.granted)))
unfolding trust_store_manager
trust_store_manager-granted true profile_of authenticate c k = (λ _. inl refl, λ _. refl)
trust_store_manager-granted false profile_of authenticate c k =
    let a = ask_agent-granted false profile_of authenticate k (profile_of k.pid) in
    (λ e. inr (a.0 e), λ h. elim h [ inl q ↦ ground arith | inr x ↦ a.1 x ])

add-keeps :
    {S : Type 0} (n p : ℕ) (d e : Element S) (s : Skeleton S)
    → find p s.session_store ≡ some e
    → find p (add_to_session_store_for_path n d s).session_store ≡ some e
unfolding add_to_session_store_for_path find
add-keeps n p d e s h = ground arith

install-keeps :
    {Q S : Type 0} (check : Manager Q) (create : Criteria Q → Option S) (watch : ℕ → Bool)
    (n sender p : ℕ) (o : Option S) (e : Element S) (s : Skeleton S)
    → find p s.session_store ≡ some e
    → find p (install check create watch n sender o s).session_store ≡ some e
unfolding install
install-keeps check create watch n sender p none e s h = h
install-keeps check create watch n sender p (some x) e s h =
    if-of {A = Skeleton _} (λ t. find p t.session_store ≡ some e) (watch sender) _ _
      (λ _. add-keeps n p _ e s h) (λ _. h)

create-keeps :
    {Q S : Type 0} (check : Manager Q) (create : Criteria Q → Option S) (watch : ℕ → Bool)
    (sender p : ℕ) (o : Option (Criteria Q)) (e : Element S) (s : Skeleton S)
    → find p s.session_store ≡ some e
    → find p (create_permitted check create watch sender o s).session_store ≡ some e
unfolding create_permitted
create-keeps check create watch sender p none e s h = h
create-keeps check create watch sender p (some c) e s h =
    install-keeps check create watch s.index sender p (create c) e (next_index s) h

-- No request takes away a session or puts another in its place, also when the numbers start again.
pub handle-keeps :
    {Q S : Type 0} (check : Manager Q) (create : Criteria Q → Option S) (watch : ℕ → Bool)
    (r : Request Q) (s : Skeleton S) (p : ℕ) (e : Element S)
    → find p s.session_store ≡ some e
    → find p (handle_create_session_for_criteria check create watch r s).session_store ≡ some e
unfolding handle_create_session_for_criteria
handle-keeps check create watch r s p e h =
    create-keeps check create watch r.sender p
      (permitted check create watch r.criteria r.credentials) e s h
