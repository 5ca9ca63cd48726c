-- ===== src/RadioCell/Stale.antt =====
-- What a cell takes for its physical id after a change to LTE.
use Prim.Native.String.{String}
use location_service.Base.{
  ◌≡◌, ◌⊎◌, inl, inr, Bool, true, Option, some, [], ◌∷◌, subst, sym, ap, ◌∙◌, if◌then◌else◌, arith,
}
use location_service.Base.Int.{ℤ}
use location_service.RadioCell.{
  CellType, Detail, Cell, same_type, is_lte_valid, is_cell_details_valid, notify,
  execute_heuristics, on_technology, change_type, convert, to_lte, set_code, on_identity,
  set_strength, type_lut,
}
use location_service.RadioCell.Bounded.{
  physical, signal, wide_id, is_valid, set, from_percent, from_percent-is_valid,
}
use location_service.RadioCell.Events.{Event, handle, run, ◌>>=◌}
use location_service.RadioCell.Validity.{execute_heuristics-same, notify-same, IsPlaced}
use location_service.Settings.{find}

-- The states that the three reports leave.
abbrev in_lte : Bool → Cell → Cell
in_lte g c =
    execute_heuristics g (notify (record c { radio_type = CellType.lte; detail = to_lte c.detail }))

abbrev measured : ℤ → Cell → Cell
measured p c = notify (record c { detail = record c.detail { lte_strength = from_percent p } })

abbrev named : Bool → ℤ → Cell → Cell
named g n c = execute_heuristics g (notify (record c { detail = record c.detail { id = n } }))

change_type-lte :
    (g : Bool) (c : Cell)
    → (c.radio_type ≡ CellType.gsm) ⊎ (c.radio_type ≡ CellType.umts)
    → change_type g CellType.lte c ≡ in_lte g c
unfolding change_type convert
change_type-lte g c (inl h) =
    ap
      (λ t.
        if same_type t CellType.lte
        then c
        else execute_heuristics g (
            notify
              (record c { radio_type = CellType.lte; detail = convert t CellType.lte c.detail })))
      h
change_type-lte g c (inr h) =
    ap
      (λ t.
        if same_type t CellType.lte
        then c
        else execute_heuristics g (
            notify
              (record c { radio_type = CellType.lte; detail = convert t CellType.lte c.detail })))
      h

handle-strength :
    (g : Bool) (p : ℤ) (c : Cell)
    → c.radio_type ≡ CellType.lte
    → handle g (Event.strength p) c ≡ some (measured p c)
unfolding handle set_strength
handle-strength g p c h =
    ap (λ t. some (notify (record c { detail = set_strength t p c.detail }))) h

handle-cell_id :
    (g : Bool) (n : ℤ) (c : Cell)
    → c.radio_type ≡ CellType.lte
    → is_valid wide_id n ≡ true
    → handle g (Event.cell_id n) c ≡ some (named g n c)
unfolding handle set_code on_identity set is_valid
handle-cell_id g n c h k = ground arith

in_lte-same :
    (g : Bool) (c : Cell)
    → (in_lte g c).radio_type ≡ CellType.lte × (in_lte g c).detail ≡ to_lte c.detail
in_lte-same g c =
    let s = record c { radio_type = CellType.lte; detail = to_lte c.detail } in
    let e = execute_heuristics-same g (notify s) in let k = notify-same s in (e.0 ∙ k.1, e.1 ∙ k.2)

measured-same :
    (p : ℤ) (c : Cell)
    → (measured p c).radio_type ≡ c.radio_type
      × (measured p c).detail ≡ record c.detail { lte_strength = from_percent p }
measured-same p c =
    let k = notify-same (record c { detail = record c.detail { lte_strength = from_percent p } }) in
    (k.1, k.2)

named-same :
    (g : Bool) (n : ℤ) (c : Cell)
    → (named g n c).radio_type ≡ c.radio_type × (named g n c).detail ≡ record c.detail { id = n }
named-same g n c =
    let s = record c { detail = record c.detail { id = n } } in
    let e = execute_heuristics-same g (notify s) in let k = notify-same s in (e.0 ∙ k.1, e.1 ∙ k.2)

-- The details after the three reports.
abbrev reported : ℤ → ℤ → Detail → Detail
reported p n d = record (to_lte d) { lte_strength = from_percent p; id = n }

all_same :
    (g : Bool) (p n : ℤ) (c : Cell)
    → (named g n (measured p (in_lte g c))).radio_type ≡ CellType.lte
      × (named g n (measured p (in_lte g c))).detail ≡ reported p n c.detail
all_same g p n c =
    let i = in_lte-same g c in
    let m = measured-same p (in_lte g c) in
    let k = named-same g n (measured p (in_lte g c)) in
    (
      k.0 ∙ (m.0 ∙ i.0),
      k.1
          ∙ (ap (λ (d : Detail). record d { id = n }) m.1
              ∙ ap (λ (d : Detail). record d { lte_strength = from_percent p; id = n }) i.1),
    )

wider : (x : ℤ) → is_valid signal x ≡ true → is_valid physical x ≡ true
unfolding is_valid
wider x q = ground arith

reported-valid :
    (p n : ℤ) (d : Detail)
    → IsPlaced d
    → is_valid signal d.strength_or_physical_id ≡ true
    → is_valid wide_id n ≡ true
    → is_lte_valid (reported p n d) ≡ true
unfolding is_lte_valid IsPlaced to_lte
reported-valid p n d h s v =
    let k = from_percent-is_valid p in let w = wider d.strength_or_physical_id s in ground arith

valid_by :
    (t : CellType) (d : Detail) {e : Detail}
    → t ≡ CellType.lte
    → d ≡ e
    → is_lte_valid e ≡ true
    → is_cell_details_valid t d ≡ true
unfolding is_cell_details_valid
valid_by t d h k v =
    subst (λ u. is_cell_details_valid u d ≡ true) (sym h)
      (subst (λ x. is_lte_valid x ≡ true) (sym k) v)

-- When ofono reports the change of a GSM or UMTS cell to a name of LTE, a signal strength and then an id
-- that is in range, and the cell's codes and its signal strength were in their ranges before, no exception
-- is thrown and all the details of the LTE cell pass for valid: its physical id, which nothing has
-- reported, is the signal strength that the cell had under the old technology.
pub stale_physical_id :
    (g : Bool) (name : String) (p n : ℤ) (c : Cell)
    → find name type_lut ≡ some CellType.lte
    → (c.radio_type ≡ CellType.gsm) ⊎ (c.radio_type ≡ CellType.umts)
    → IsPlaced c.detail
    → is_valid signal c.detail.strength_or_physical_id ≡ true
    → is_valid wide_id n ≡ true
    → (d : Cell) × (run g (Event.technology name ∷ Event.strength p ∷ Event.cell_id n ∷ []) c
        ≡ some d)
      × (is_cell_details_valid d.radio_type d.detail ≡ true)
      × (d.detail.strength_or_physical_id ≡ c.detail.strength_or_physical_id)
unfolding run handle on_technology is_cell_details_valid to_lte
stale_physical_id g name p n c f t h s v =
    let i = in_lte-same g c in
    let m = measured-same p (in_lte g c) in
    let a = all_same g p n c in
    (
      named g n (measured p (in_lte g c)),
      ap (λ o. some (on_technology g o c) >>= rest) f
          ∙ (ap (λ x. some x >>= rest) (change_type-lte g c t)
              ∙ (ap (λ o. o >>= last) (handle-strength g p (in_lte g c) i.0)
                  ∙ ap (λ o. o >>= some)
                      (handle-cell_id g n (measured p (in_lte g c)) (m.0 ∙ i.0) v))),
      valid_by _ _ a.0 a.1 (reported-valid p n c.detail h s v),
      ap (λ (x : Detail). x.strength_or_physical_id) a.1,
    )
  where
    last : Cell → Option Cell
    last x = run g (Event.cell_id n ∷ []) x

    rest : Cell → Option Cell
    rest x = run g (Event.strength p ∷ Event.cell_id n ∷ []) x
