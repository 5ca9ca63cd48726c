-- ===== src/Fusion/Forwarded.antt =====
-- fusion_provider.cpp: the calls that the fused provider passes on to each of the providers.
use location_service.Base.{ℕ, zero, suc, ◌≤◌, ◌≡◌, refl, ap, ◌∙◌, List, [], ◌∷◌, map, length}
use location_service.Base.Int.{int_max}
use location_service.Provider.Controller.{
  Call, Controller, fresh, Part, Request, ask_enable, ask_disable, ask, enable, disable, forward,
}
use location_service.Provider.Consistency
use location_service.Provider.Consistency.{
  Driven, driven_part, log_call, init, running, ArePolite, run-init-IsConsistent,
}
use location_service.Provider.Simulate.{forward-simulates, disable-simulates}
use location_service.Provider.Chained.{controller_of, deliver, replay-deliver}

-- `FusionProvider`, over providers that drive devices through controllers of their own.
pub record Fused : Type 0 where
  pub controller : Controller
  pub providers : List Driven

abbrev pub fused_part : Part Fused Controller
fused_part = record { get = λ f. f.controller; put = λ c f. record f { controller = c } }

-- Its virtual functions: the function of the same name of each provider's controller.
unfoldable pub call_each : Call → Fused → Fused
unfolding Consistency.step
call_each c f = record f { providers = map (λ d. Consistency.step d (ask c)) f.providers }

unfoldable pub step : Request → Fused → Fused
unfolding enable disable forward call_each
step ask_enable f = enable fused_part f
step ask_disable f = disable fused_part call_each f
step (ask c) f = forward fused_part call_each c f

unfoldable pub run : List Request → Fused → Fused
unfolding step
run [] f = f
run (r ∷ rs) f = run rs (step r f)

unfoldable pub copies : ℕ → Driven → List Driven
copies zero d = []
copies (suc n) d = d ∷ copies n d

map-copies : (f : Driven → Driven) (n : ℕ) (d : Driven) → map f (copies n d) ≡ copies n (f d)
unfolding copies
map-copies f zero d = refl
map-copies f (suc n) d = ap (λ ds. f d ∷ ds) (map-copies f n d)

record IsForwarded (n : ℕ) (d : Driven) (f : Fused) : Type 0 where
  controlled : f.controller ≡ d.controller
  forwarded : f.providers ≡ copies n (deliver d.calls)

map-copies_delivered :
    (n : ℕ) (c : Call) (cs : List Call) (ds : List Driven)
    → ds ≡ copies n (deliver cs)
    → map (λ d. Consistency.step d (ask c)) ds ≡ copies n (deliver (c ∷ cs))
unfolding deliver
map-copies_delivered n c cs ds h =
    ap (map (λ d. Consistency.step d (ask c))) h ∙ map-copies _ n (deliver cs)

-- A call of a virtual function, with whatever controllers the two have then.
called-IsForwarded :
    (n : ℕ) (c : Call) (d : Driven) (f : Fused)
    → IsForwarded n d f
    → IsForwarded n (log_call c d) (call_each c f)
unfolding call_each
called-IsForwarded n c d f h = record {
  controlled = h.controlled;
  forwarded = map-copies_delivered n c d.calls f.providers h.forwarded;
}

put-IsForwarded :
    (n : ℕ) (c : Controller) (d : Driven) (f : Fused)
    → IsForwarded n d f
    → IsForwarded n (driven_part.put c d) (fused_part.put c f)
put-IsForwarded n c d f h = record { controlled = refl; forwarded = h.forwarded }

step-IsForwarded :
    (n : ℕ) (r : Request) (d : Driven) (f : Fused)
    → IsForwarded n d f
    → IsForwarded n (Consistency.step d r) (step r f)
unfolding step Consistency.step
step-IsForwarded n ask_enable d f h = put-IsForwarded n fresh d f h
step-IsForwarded n ask_disable d f h =
    disable-simulates (IsForwarded n) driven_part fused_part log_call call_each
      (λ d f h. h.controlled) (put-IsForwarded n) (called-IsForwarded n) d f h
step-IsForwarded n (ask c) d f h =
    forward-simulates (IsForwarded n) driven_part fused_part log_call call_each
      (λ d f h. h.controlled) (put-IsForwarded n) (called-IsForwarded n) c d f h

run-IsForwarded :
    (n : ℕ) (rs : List Request) (d : Driven) (f : Fused)
    → IsForwarded n d f
    → IsForwarded n (Consistency.run d rs) (run rs f)
unfolding run Consistency.run
run-IsForwarded n [] d f h = h
run-IsForwarded n (r ∷ rs) d f h = run-IsForwarded n rs _ _ (step-IsForwarded n r d f h)

-- Of at most 2147483647 requests to a fused provider that is enabled only while nothing runs, each of its
-- providers that nobody else uses passes on to its device just the calls that a provider alone would have got, in
-- the same order, and counts one user for each kind of updates that runs.
pub run-copies :
    (n : ℕ) (rs : List Request)
    → length rs ≤ int_max
    → ArePolite init rs
    → let alone = Consistency.run init rs in
      (run rs (record { controller = fresh; providers = copies n init })).providers
      ≡ copies n
          (record { controller = controller_of (running alone.controller); calls = alone.calls })
unfolding copies deliver
run-copies n rs h p =
    let alone = Consistency.run init rs in
    (run-IsForwarded n rs init (record { controller = fresh; providers = copies n init })
      (record { controlled = refl; forwarded = refl })).forwarded
    ∙ ap (copies n) (replay-deliver alone.calls _ (run-init-IsConsistent rs h p).obeyed)
