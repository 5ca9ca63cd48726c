-- ===== src/Connectivity/Cells.antt =====
-- The caches of modems and of connected radio cells. The lock on the caches makes what is done to them a
-- sequence of steps; a task that is posted to the dispatcher is run by a step of its own.
use location_service.Base.{
  ℕ, suc, Bool, not, ◌&&◌, Option, none, some, List, [], ◌∷◌, ◌++◌, if◌then◌else◌, contains,
  is_some,
}
use location_service.Base.Maps.{find, erase, assign, forget}
use location_service.Engine.State.{Property}
use location_service.RadioCell
use location_service.RadioCell.{Cell, Detail}
use location_service.RadioCell.Events
use location_service.RadioCell.Events.{Modem, construct, handle}

-- A cell with the number of its object.
pub record Entry : Type 0 where
  pub id : ℕ
  pub cell : Cell

-- `signals.connected_cell_added` and `signals.connected_cell_removed`
pub data Announcement : Type 0 where
  cell_added : ℕ → Announcement
  cell_removed : ℕ → Announcement

-- `Private::cached` as far as modems are concerned. `tasks` are the paths for which the creation of a cell
-- was posted, the oldest first, and `announced` is what was announced, the newest first.
pub record Cache : Type 0 where
  pub modems : List ℕ
  pub cells : List (ℕ × Entry)
  pub tasks : List ℕ
  pub next : ℕ
  pub announced : List Announcement

abbrev pub empty : Cache
empty = record { modems = []; cells = []; tasks = []; next = 0; announced = [] }

-- What the constructor of a cell meets: the firmware, the memory of the union, and the modem's properties.
pub record Access : Type 0 where
  pub needed : Bool
  pub memory : Detail
  pub modem : Modem

abbrev pub announce : Announcement → Cache → Cache
announce a c = record c { announced = a ∷ c.announced }

-- `cached.cells.erase` and the announcement, where there is a cell.
unfoldable pub drop_cell : ℕ → Option Entry → Cache → Cache
unfolding erase
drop_cell path none c = c
drop_cell path (some e) c = announce (cell_removed e.id) (record c { cells = erase path c.cells })

-- A new cell object under a path: `insert` keeps the cell that a path already has.
unfoldable pub insert_cell : ℕ → Cell → Cache → Cache
unfolding find
insert_cell path cell c =
    if is_some (find path c.cells) then record c { next = suc c.next } else record c {
      cells = (path, record { id = c.next; cell = cell }) ∷ c.cells;
      next = suc c.next;
    }

-- `on_modem_added`, from where the modem is in the cache; an exception of the cell's constructor ends it.
unfoldable pub add_first_cell : ℕ → Option Cell → Cache → Cache
unfolding find insert_cell
add_first_cell path none c = c
add_first_cell path (some cell) c =
    if is_some (find path c.cells)
    then insert_cell path cell c
    else announce (cell_added c.next) (insert_cell path cell c)

-- The task that `on_modem_interfaces_changed` posts, for a modem that is in the cache.
unfoldable pub add_later_cell : ℕ → Option Cell → Cache → Cache
unfolding insert_cell
add_later_cell path none c = c
add_later_cell path (some cell) c = announce (cell_added c.next) (insert_cell path cell c)

-- What happens to the caches: the signals of oFono, a posted task that runs, and what a cached cell handles.
pub data Event : Type 0 where
  modem_added : ℕ → Access → Event
  modem_removed : ℕ → Event
  interfaces_changed : ℕ → Bool → Event
  dispatched : Access → Event
  cell_changed : ℕ → RadioCell.Events.Event → Event

-- The cells that are valid now.
unfoldable pub enumerate : List (ℕ × Entry) → List Entry
enumerate [] = []
enumerate ((p, e) ∷ rest) = let later = enumerate rest in if e.cell.valid then e ∷ later else later

unfoldable pub enumerate_connected_radio_cells : Cache → List Entry
unfolding enumerate
enumerate_connected_radio_cells c = enumerate c.cells

-- `also_apply_cell_change_heuristics_to_gsm_cells`
module _ (also_gsm : Bool) where
  abbrev pub make : Access → Option Cell
  make a = construct also_gsm a.needed a.memory a.modem

  unfoldable pub on_modem_added : ℕ → Access → Cache → Cache
  unfolding add_first_cell
  on_modem_added path a c =
      if contains c.modems path
      then c
      else add_first_cell path (make a) (record c { modems = path ∷ c.modems })

  unfoldable pub on_modem_removed : ℕ → Cache → Cache
  unfolding find drop_cell forget
  on_modem_removed path c =
      let dropped = drop_cell path (find path c.cells) c in
      record dropped { modems = forget path dropped.modems }

  -- The flag says whether the interfaces have the network registration.
  unfoldable pub on_modem_interfaces_changed : ℕ → Bool → Cache → Cache
  unfolding find drop_cell
  on_modem_interfaces_changed path registration c =
      if not (contains c.modems path)
      then c
      else if is_some (find path c.cells) && not registration
      then drop_cell path (find path c.cells) c
      else if not (is_some (find path c.cells)) && registration
      then record c { tasks = c.tasks ++ (path ∷ []) }
      else c

  -- The dispatcher runs the oldest task.
  unfoldable pub dispatch_to : List ℕ → Access → Cache → Cache
  unfolding add_later_cell
  dispatch_to [] a c = c
  dispatch_to (path ∷ tasks) a c =
      let d = record c { tasks = tasks } in
      if contains c.modems path then add_later_cell path (make a) d else d

  -- A change that a cached cell handles, and the slot of its `is_valid`.
  module _ (validity : Property Bool) where
    unfoldable pub on_valid : Entry → Cell → Cache → Cache
    on_valid e cell c =
        if validity.emits e.cell.valid cell.valid
        then announce (if cell.valid then cell_added e.id else cell_removed e.id) c
        else c

    unfoldable pub changed : ℕ → Option Entry → Option Cell → Cache → Cache
    unfolding on_valid assign
    changed path (some e) (some cell) c =
        on_valid e cell (record c { cells = assign path (record e { cell = cell }) c.cells })
    changed path _ _ c = c

    abbrev pub handled : RadioCell.Events.Event → Option Entry → Option Cell
    handled v none = none
    handled v (some e) = handle also_gsm v e.cell

    unfoldable pub step : Event → Cache → Cache
    unfolding on_modem_added on_modem_removed on_modem_interfaces_changed dispatch_to changed find
    step (modem_added path a) c = on_modem_added path a c
    step (modem_removed path) c = on_modem_removed path c
    step (interfaces_changed path registration) c = on_modem_interfaces_changed path registration c
    step (dispatched a) c = dispatch_to c.tasks a c
    step (cell_changed path v) c =
        changed path (find path c.cells) (handled v (find path c.cells)) c

    unfoldable pub run : List Event → Cache → Cache
    unfolding step
    run [] c = c
    run (v ∷ vs) c = run vs (step v c)
