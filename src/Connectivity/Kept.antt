-- ===== src/Connectivity/Kept.antt =====
-- What every event keeps true of the caches.
use location_service.Base.{
  ℕ, ◌≡◌, refl, sym, subst, ◌∙◌, ◌==◌, Bool, true, false, not, ◌&&◌, Option, none, some, List, [],
  ◌∷◌, contains, is_some, if-of, arith, All,
}
use location_service.Base.Maps.{
  find, assign, forget, erase-All, erase-All_other, assign-All, find-All, find-All_other, All-map,
  contains-forget_other,
}
use location_service.Engine.State.{Property}
use location_service.RadioCell
use location_service.RadioCell.{Cell, is_unknown, is_umts, is_cell_details_valid}
use location_service.RadioCell.Events
use location_service.RadioCell.Events.{handle, is_registered_or_roaming, construct}
use location_service.Connectivity.Cells.{
  Entry, Cache, Access, drop_cell, insert_cell, add_first_cell, add_later_cell, make,
  on_modem_added, on_modem_removed, on_modem_interfaces_changed, dispatch_to, on_valid, changed,
  handled, Event, modem_added, modem_removed, interfaces_changed, dispatched, cell_changed, step,
  run, enumerate,
}

-- A property of cells that the cells have which the constructor gives, and that no change takes from them.
module _ (also_gsm : Bool) (validity : Property Bool) (P : Cell → Type 0)
    (keep : (v : RadioCell.Events.Event) (c d : Cell)
      → P c
      → handle also_gsm v c ≡ some d
      → P d) where
  -- A pair of the cells' map whose modem is one of `modems`.
  unfoldable pub IsKept : List ℕ → (ℕ × Entry) → Type 0
  IsKept modems x = (contains modems x.0 ≡ true) × P x.1.cell

  unfoldable pub AreKept : Cache → Type 0
  AreKept c = All (IsKept c.modems) c.cells

  unfoldable pub Brings : Access → Type 0
  Brings a = (x : Cell) → make also_gsm a ≡ some x → P x

  unfoldable pub IsFit : Event → Type 0
  IsFit (modem_added path a) = Brings a
  IsFit (dispatched a) = Brings a
  IsFit _ = Unit

  contains_more :
      (p q : ℕ) (modems : List ℕ) → contains modems p ≡ true → contains (q ∷ modems) p ≡ true
  contains_more p q modems h = ground arith

  forget-IsKept :
      (q : ℕ) (modems : List ℕ) (x : ℕ × Entry)
      → (x.0 == q) ≡ false
      → IsKept modems x
      → IsKept (forget q modems) x
  unfolding IsKept
  forget-IsKept q modems x e h = (contains-forget_other x.0 q modems e ∙ h.0, h.1)

  drop_cell-AreKept : (q : ℕ) (o : Option Entry) (c : Cache) → AreKept c → AreKept (drop_cell q o c)
  unfolding AreKept drop_cell
  drop_cell-AreKept q none c h = h
  drop_cell-AreKept q (some e) c h = erase-All (IsKept c.modems) q c.cells h

  insert_cell-AreKept :
      (q : ℕ) (x : Cell) (c : Cache)
      → contains c.modems q ≡ true
      → P x
      → AreKept c
      → AreKept (insert_cell q x c)
  unfolding AreKept IsKept insert_cell
  insert_cell-AreKept q x c k h r =
      if-of AreKept (is_some (find q c.cells)) _ _ (λ _. r) (λ _. ((k, h), r))

  add_later_cell-AreKept :
      (q : ℕ) (o : Option Cell) (c : Cache)
      → contains c.modems q ≡ true
      → ((x : Cell) → o ≡ some x → P x)
      → AreKept c
      → AreKept (add_later_cell q o c)
  unfolding AreKept add_later_cell
  add_later_cell-AreKept q none c k h r = r
  add_later_cell-AreKept q (some x) c k h r = insert_cell-AreKept q x c k (h x refl) r

  add_first_cell-AreKept :
      (q : ℕ) (o : Option Cell) (c : Cache)
      → contains c.modems q ≡ true
      → ((x : Cell) → o ≡ some x → P x)
      → AreKept c
      → AreKept (add_first_cell q o c)
  unfolding AreKept add_first_cell
  add_first_cell-AreKept q none c k h r = r
  add_first_cell-AreKept q (some x) c k h r =
      let s = insert_cell-AreKept q x c k (h x refl) r in
      if-of AreKept (is_some (find q c.cells)) _ _ (λ _. s) (λ _. s)

  on_modem_added-AreKept :
      (q : ℕ) (a : Access) (c : Cache)
      → Brings a
      → AreKept c
      → AreKept (on_modem_added also_gsm q a c)
  unfolding AreKept on_modem_added Brings IsKept
  on_modem_added-AreKept q a c b h =
      if-of AreKept (contains c.modems q) _ _ (λ _. h)
        (λ _.
          add_first_cell-AreKept q (make also_gsm a) (record c { modems = q ∷ c.modems })
            (ground arith) b
            (All-map (IsKept c.modems) (IsKept (q ∷ c.modems)) c.cells
              (λ x k. (contains_more x.0 q c.modems k.0, k.1)) h))

  removed-AreKept :
      (q : ℕ) (o : Option Entry) (c : Cache)
      → find q c.cells ≡ o
      → AreKept c
      → All (IsKept (forget q c.modems)) (drop_cell q o c).cells
  unfolding AreKept drop_cell
  removed-AreKept q none c e h =
      find-All_other (IsKept c.modems) (IsKept (forget q c.modems)) q (forget-IsKept q c.modems)
        c.cells e h
  removed-AreKept q (some x) c e h =
      erase-All_other (IsKept c.modems) (IsKept (forget q c.modems)) q (forget-IsKept q c.modems)
        c.cells h

  drop_cell-modems : (q : ℕ) (o : Option Entry) (c : Cache) → (drop_cell q o c).modems ≡ c.modems
  unfolding drop_cell
  drop_cell-modems q none c = refl
  drop_cell-modems q (some x) c = refl

  on_modem_removed-AreKept :
      (q : ℕ) (c : Cache) → AreKept c → AreKept (on_modem_removed also_gsm q c)
  unfolding AreKept on_modem_removed
  on_modem_removed-AreKept q c h =
      subst (λ ms. All (IsKept (forget q ms)) (drop_cell q (find q c.cells) c).cells)
        (sym (drop_cell-modems q (find q c.cells) c)) (removed-AreKept q (find q c.cells) c refl h)

  on_modem_interfaces_changed-AreKept :
      (q : ℕ) (registration : Bool) (c : Cache)
      → AreKept c
      → AreKept (on_modem_interfaces_changed also_gsm q registration c)
  unfolding AreKept on_modem_interfaces_changed
  on_modem_interfaces_changed-AreKept q registration c h =
      if-of AreKept (not (contains c.modems q)) _ _ (λ _. h)
        (λ _.
          if-of AreKept (is_some (find q c.cells) && not registration) _ _
            (λ _. drop_cell-AreKept q (find q c.cells) c h)
            (λ _.
              if-of AreKept (not (is_some (find q c.cells)) && registration) _ _ (λ _. h) (λ _. h)))

  dispatch_to-AreKept :
      (tasks : List ℕ) (a : Access) (c : Cache)
      → Brings a
      → AreKept c
      → AreKept (dispatch_to also_gsm tasks a c)
  unfolding AreKept dispatch_to Brings
  dispatch_to-AreKept [] a c b h = h
  dispatch_to-AreKept (q ∷ tasks) a c b h =
      if-of AreKept (contains c.modems q) _ _
        (λ k. add_later_cell-AreKept q (make also_gsm a) (record c { tasks = tasks }) k b h)
        (λ _. h)

  on_valid-AreKept :
      (e : Entry) (x : Cell) (c : Cache) → AreKept c → AreKept (on_valid also_gsm validity e x c)
  unfolding AreKept on_valid
  on_valid-AreKept e x c h =
      if-of AreKept (validity.emits e.cell.valid x.valid) _ _ (λ _. h) (λ _. h)

  changed-AreKept :
      (q : ℕ) (v : RadioCell.Events.Event) (c : Cache)
      → AreKept c
      → (o : Option Entry) → find q c.cells ≡ o
      → (n : Option Cell) → handled also_gsm validity v o ≡ n
      → AreKept (changed also_gsm validity q o n c)
  unfolding AreKept changed IsKept
  changed-AreKept q v c h none f n k = h
  changed-AreKept q v c h (some e) f none k = h
  changed-AreKept q v c h (some e) f (some x) k =
      let r = find-All (IsKept c.modems) q e c.cells h f in
      on_valid-AreKept e x (record c { cells = assign q (record e { cell = x }) c.cells })
        (assign-All (IsKept c.modems) q (record e { cell = x }) c.cells (r.0, keep v e.cell x r.1 k)
          h)

  step-AreKept :
      (v : Event) (c : Cache) → IsFit v → AreKept c → AreKept (step also_gsm validity v c)
  unfolding step IsFit
  step-AreKept (modem_added q a) c b h = on_modem_added-AreKept q a c b h
  step-AreKept (modem_removed q) c b h = on_modem_removed-AreKept q c h
  step-AreKept (interfaces_changed q r) c b h = on_modem_interfaces_changed-AreKept q r c h
  step-AreKept (dispatched a) c b h = dispatch_to-AreKept c.tasks a c b h
  step-AreKept (cell_changed q v) c b h = changed-AreKept q v c h (find q c.cells) refl _ refl

  pub run-AreKept :
      (vs : List Event) (c : Cache)
      → All IsFit vs
      → AreKept c
      → AreKept (run also_gsm validity vs c)
  unfolding run
  run-AreKept [] c b h = h
  run-AreKept (v ∷ vs) c b h =
      run-AreKept vs (step also_gsm validity v c) b.1 (step-AreKept v c b.0 h)

  pub enumerate-All :
      (modems : List ℕ) (m : List (ℕ × Entry))
      → All (IsKept modems) m
      → All (λ e. (e.cell.valid ≡ true) × P e.cell) (enumerate m)
  unfolding enumerate IsKept
  enumerate-All modems [] h = tt
  enumerate-All modems ((q, e) ∷ rest) h =
      if-of (All (λ e. (e.cell.valid ≡ true) × P e.cell)) e.cell.valid _ _
        (λ k. ((k, h.0.1), enumerate-All modems rest h.1)) (λ _. enumerate-All modems rest h.1)
