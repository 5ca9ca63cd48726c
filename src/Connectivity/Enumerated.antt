-- ===== src/Connectivity/Enumerated.antt =====
-- What holds of the caches after whatever happened to the modems, and of the cells that are enumerated.
use location_service.Base.{
  ℕ, suc, ◌≡◌, Bool, true, false, not, ◌&&◌, ◌||◌, none, some, List, [], ◌∷◌, contains, arith, All,
}
use location_service.Base.Maps.{find, All-map}
use location_service.Engine.State.{Property}
use location_service.RadioCell
use location_service.RadioCell.{Cell, is_unknown, is_umts, is_cell_details_valid}
use location_service.RadioCell.Events
use location_service.RadioCell.Events.{handle, is_registered_or_roaming, construct}
use location_service.RadioCell.Validity.{IsSound, handle-IsSound, construct-IsSound}
use location_service.Connectivity.Cells.{
  cell_added, Cache, empty, Access, insert_cell, add_later_cell, make, on_modem_interfaces_changed,
  dispatch_to, Event, modem_added, modem_removed, interfaces_changed, dispatched, cell_changed,
  step, run, enumerate, enumerate_connected_radio_cells,
}
use location_service.Connectivity.Kept.{IsKept, Brings, IsFit, AreKept, run-AreKept, enumerate-All}

-- The modem is registered and its technology is known when the cell is constructed.
unfoldable pub IsReady : Event → Type 0
IsReady (modem_added path a) =
    (is_registered_or_roaming a.modem.status ≡ true) × (is_unknown a.modem.technology ≡ false)
IsReady (dispatched a) =
    (is_registered_or_roaming a.modem.status ≡ true) × (is_unknown a.modem.technology ≡ false)
IsReady _ = Unit

IsReady-IsFit :
    (g : Bool) (validity : Property Bool) (v : Event)
    → IsReady v
    → IsFit g validity (IsSound g) (handle-IsSound g) v
unfolding IsReady IsFit Brings
IsReady-IsFit g validity (modem_added path a) h =
    λ x e. construct-IsSound g a.needed a.memory a.modem x h.0 h.1 e
IsReady-IsFit g validity (dispatched a) h =
    λ x e. construct-IsSound g a.needed a.memory a.modem x h.0 h.1 e
IsReady-IsFit g validity (modem_removed path) h = tt
IsReady-IsFit g validity (interfaces_changed path r) h = tt
IsReady-IsFit g validity (cell_changed path v) h = tt

All-IsFit :
    (g : Bool) (validity : Property Bool) (P : Cell → Type 0)
    (keep : (v : RadioCell.Events.Event) (c d : Cell) → P c → handle g v c ≡ some d → P d)
    → ((v : Event) → IsFit g validity P keep v)
    → (vs : List Event) → All (IsFit g validity P keep) vs
All-IsFit g validity P keep f [] = tt
All-IsFit g validity P keep f (v ∷ vs) = (f v, All-IsFit g validity P keep f vs)

always :
    (g : Bool) (validity : Property Bool) (v : Event)
    → IsFit g validity (λ c. Unit) (λ v c d h e. tt) v
unfolding IsFit Brings
always g validity (modem_added path a) = λ x e. tt
always g validity (dispatched a) = λ x e. tt
always g validity (modem_removed path) = tt
always g validity (interfaces_changed path r) = tt
always g validity (cell_changed path v) = tt

-- Whatever the modems announced, whatever tasks ran and whatever the cells handled since the caches were
-- empty: every cell in the cache stands under the path of a modem that is in the cache.
pub run-modems :
    (g : Bool) (validity : Property Bool) (vs : List Event)
    → All
        (λ x. contains (run g validity vs empty).modems x.0 ≡ true)
        (run g validity vs empty).cells
unfolding AreKept IsKept
run-modems g validity vs =
    All-map (IsKept g validity (λ c. Unit) (λ v c d h e. tt) (run g validity vs empty).modems) _
      (run g validity vs empty).cells (λ x k. k.0)
      (run-AreKept g validity (λ c. Unit) (λ v c d h e. tt) vs empty
        (All-IsFit g validity (λ c. Unit) (λ v c d h e. tt) (always g validity) vs) tt)

-- Where the heuristics apply to the cell, its details are in their ranges.
unfoldable pub is_checked : Bool → Cell → Bool
is_checked g c =
    not (c.needed && (is_umts c.radio_type || g)) || is_cell_details_valid c.radio_type c.detail

IsSound-is_checked : (g : Bool) (c : Cell) → c.valid ≡ true → IsSound g c → is_checked g c ≡ true
unfolding IsSound is_checked
IsSound-is_checked g c v h = ground arith

-- Whatever happened since the caches were empty, if every cell was constructed while its modem was
-- registered with a known technology: every cell that is enumerated is valid, and where the change heuristics
-- apply to it, all its details are in their ranges.
pub enumerated_complete :
    (g : Bool) (validity : Property Bool) (vs : List Event)
    → All IsReady vs
    → All
        (λ e. (e.cell.valid ≡ true) × (is_checked g e.cell ≡ true))
        (enumerate_connected_radio_cells (run g validity vs empty))
unfolding enumerate_connected_radio_cells AreKept
enumerated_complete g validity vs h =
    let c = run g validity vs empty in
    let k =
      run-AreKept g validity (IsSound g) (handle-IsSound g) vs empty
        (All-map IsReady (IsFit g validity (IsSound g) (handle-IsSound g)) vs
          (IsReady-IsFit g validity) h)
        tt in
    All-map (λ e. (e.cell.valid ≡ true) × IsSound g e.cell) _ (enumerate c.cells)
      (λ e r. (r.0, IsSound-is_checked g e.cell r.0 r.1))
      (enumerate-All g validity (IsSound g) (handle-IsSound g) c.modems c.cells k)

-- Two reports that a modem without a cell has its network registration, before the dispatcher runs: two cells
-- are constructed and announced, of which the first alone is in the cache.
pub announced_twice :
    (g : Bool) (validity : Property Bool) (p : ℕ) (a b : Access) (x y : Cell) (c : Cache)
    → contains c.modems p ≡ true
    → find p c.cells ≡ none
    → c.tasks ≡ []
    → make g a ≡ some x
    → make g b ≡ some y
    → run g validity
        (interfaces_changed p true ∷ interfaces_changed p true ∷ dispatched a ∷ dispatched b ∷ [])
        c
      ≡ record c {
        cells = (p, record { id = c.next; cell = x }) ∷ c.cells;
        next = suc (suc c.next);
        announced = cell_added (suc c.next) ∷ cell_added c.next ∷ c.announced;
      }
unfolding run step on_modem_interfaces_changed dispatch_to add_later_cell insert_cell find
announced_twice g validity p a b x y c m n t e f = ground arith
