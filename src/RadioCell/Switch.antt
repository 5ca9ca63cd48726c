-- ===== src/RadioCell/Switch.antt =====
-- What is left in a cell when the radio technology changes, and when a change of a property throws.
use Prim.Native.String.{String}
use location_service.Base.{
  if-of, ap, ◌∙◌, ◌≡◌, ◌↔◌, Bool, true, false, ◌||◌, Option, some, none, List, [], ◌∷◌, All, refl,
  subst, sym, arith,
}
use location_service.Base.Int.{ℤ, pos, int_max}
use location_service.RadioCell.{
  CellType, same_type, Detail, Cell, is_umts, is_unknown, is_narrow_valid, is_lte_valid,
  is_cell_details_valid, notify, execute_heuristics, timer_expired, on_technology, change_type,
  convert, to_narrow, to_lte, set_code, on_identity, set_strength, id_bounds, type_lut,
}
use location_service.RadioCell.Bounded.{
  country_or_network, area, gsm_id, wide_id, is_valid, set, reset,
}
use location_service.RadioCell.Events.{Event, handle, run}
use location_service.RadioCell.Validity.{notify-same, same_cell, >>=-some}
use location_service.Settings.{find}

-- A reported code that the cell cannot take.
unfoldable pub IsOutOfRange : Event → Cell → Type 0
IsOutOfRange (Event.cell_id v) c =
    (is_unknown c.radio_type ≡ false) × (is_valid (id_bounds c.radio_type) v ≡ false)
IsOutOfRange (Event.location_area_code v) c =
    (is_unknown c.radio_type ≡ false) × (is_valid area v ≡ false)
IsOutOfRange (Event.mobile_country_code v) c =
    (is_unknown c.radio_type ≡ false) × (is_valid country_or_network v ≡ false)
IsOutOfRange (Event.mobile_network_code v) c =
    (is_unknown c.radio_type ≡ false) × (is_valid country_or_network v ≡ false)
IsOutOfRange _ c = ⊥

-- The handler throws exactly when it is given a code that is outside the range of its field in a cell of
-- a known type.
pub handle-eq-none_iff :
    (g : Bool) (e : Event) (c : Cell) → (handle g e c ≡ none) ↔ IsOutOfRange e c
unfolding handle on_identity set_code set is_valid IsOutOfRange
handle-eq-none_iff g (Event.technology s) c = (λ h. ground arith, λ h. ground arith)
handle-eq-none_iff g (Event.cell_id v) c = (λ h. ground arith, λ h. ground arith)
handle-eq-none_iff g (Event.location_area_code v) c = (λ h. ground arith, λ h. ground arith)
handle-eq-none_iff g (Event.mobile_country_code v) c = (λ h. ground arith, λ h. ground arith)
handle-eq-none_iff g (Event.mobile_network_code v) c = (λ h. ground arith, λ h. ground arith)
handle-eq-none_iff g (Event.strength v) c = (λ h. ground arith, λ h. ground arith)
handle-eq-none_iff g (Event.status s) c = (λ h. ground arith, λ h. ground arith)
handle-eq-none_iff g Event.expiry c = (λ h. ground arith, λ h. ground arith)

-- Not the report of a cell's id.
unfoldable pub IsOther : Event → Type 0
IsOther (Event.cell_id v) = ⊥
IsOther _ = Unit

-- A cell that waits for the id of a new cell.
IsWaiting : Cell → Type 0
IsWaiting c = (c.valid ≡ false) × (c.detail.id ≡ pos int_max)

not_an_id : (v : ℤ) → v ≡ pos int_max → (is_valid gsm_id v ≡ false) × (is_valid wide_id v ≡ false)
unfolding is_valid
not_an_id v h =
    subst (λ w. (is_valid gsm_id w ≡ false) × (is_valid wide_id w ≡ false)) (sym h) (refl, refl)

waiting-invalid :
    (t : CellType) (d : Detail) → d.id ≡ pos int_max → is_cell_details_valid t d ≡ false
unfolding is_cell_details_valid is_narrow_valid is_lte_valid
waiting-invalid t d h = let k = not_an_id d.id h in ground arith

execute_heuristics-IsWaiting :
    (g : Bool) (c : Cell) → IsWaiting c → IsWaiting (execute_heuristics g c)
unfolding IsWaiting execute_heuristics
execute_heuristics-IsWaiting g c h =
    let k = waiting-invalid c.radio_type c.detail h.1 in ground arith

notify-IsWaiting : (c : Cell) → IsWaiting c → IsWaiting (notify c)
unfolding IsWaiting notify
notify-IsWaiting c h = ground arith

convert-id : (s t : CellType) (d : Detail) → d.id ≡ pos int_max → (convert s t d).id ≡ pos int_max
unfolding convert to_narrow to_lte reset
convert-id s t d h = ground arith

change_type-IsWaiting :
    (g : Bool) (t : CellType) (c : Cell) → IsWaiting c → IsWaiting (change_type g t c)
unfolding change_type IsWaiting
change_type-IsWaiting g t c h =
    if-of IsWaiting (is_unknown t || same_type c.radio_type t) c _ (λ _. h)
      (λ _. execute_heuristics-IsWaiting g _ (
        notify-IsWaiting (record c { radio_type = t; detail = convert c.radio_type t c.detail })
          (h.0, convert-id c.radio_type t c.detail h.1)))

on_technology-IsWaiting :
    (g : Bool) (t : Option CellType) (c : Cell) → IsWaiting c → IsWaiting (on_technology g t c)
unfolding on_technology
on_technology-IsWaiting g none c h = h
on_technology-IsWaiting g (some t) c h = change_type-IsWaiting g t c h

on_identity-IsWaiting :
    (g : Bool) (o : Option Detail) (c d : Cell)
    → IsWaiting c
    → ((x : Detail) → o ≡ some x → x.id ≡ c.detail.id)
    → on_identity g o c ≡ some d
    → IsWaiting d
unfolding on_identity IsWaiting
on_identity-IsWaiting g none c d h k e = ground arith
on_identity-IsWaiting g (some x) c d h k e = same_cell IsWaiting _ d e (
    execute_heuristics-IsWaiting g _
      (notify-IsWaiting (record c { detail = x }) (h.0, k x refl ∙ h.1)))

handle-IsWaiting :
    (g : Bool) (e : Event) (c d : Cell)
    → IsOther e
    → IsWaiting c
    → handle g e c ≡ some d
    → IsWaiting d
unfolding handle IsOther IsWaiting timer_expired set_strength notify
handle-IsWaiting g (Event.technology s) c d o h e =
    same_cell IsWaiting _ d e (on_technology-IsWaiting g (find s type_lut) c h)
handle-IsWaiting g (Event.cell_id v) c d o h e = absurd o
handle-IsWaiting g (Event.location_area_code v) c d o h e =
    on_identity-IsWaiting g _ c d h (λ x q. ground arith) e
handle-IsWaiting g (Event.mobile_country_code v) c d o h e =
    on_identity-IsWaiting g _ c d h (λ x q. ground arith) e
handle-IsWaiting g (Event.mobile_network_code v) c d o h e =
    on_identity-IsWaiting g _ c d h (λ x q. ground arith) e
handle-IsWaiting g (Event.strength v) c d o h e = ground arith
handle-IsWaiting g (Event.status s) c d o h e = ground arith
handle-IsWaiting g Event.expiry c d o h e = ground arith

run-IsWaiting :
    (g : Bool) (es : List Event) (c d : Cell)
    → All IsOther es
    → IsWaiting c
    → run g es c ≡ some d
    → IsWaiting d
unfolding run
run-IsWaiting g [] c d a h e = same_cell IsWaiting c d e h
run-IsWaiting g (x ∷ es) c d a h e =
    let t = >>=-some (handle g x c) (λ y. run g es y) d e in
    run-IsWaiting g es t.0 d a.1 (handle-IsWaiting g x c t.0 a.0 h t.1) t.2

executed-IsWaiting :
    (g : Bool) (c : Cell)
    → c.needed ≡ true
    → c.radio_type ≡ CellType.umts
    → c.detail.id ≡ pos int_max
    → IsWaiting (execute_heuristics g c)
unfolding execute_heuristics IsWaiting
executed-IsWaiting g c n u h = let k = waiting-invalid c.radio_type c.detail h in ground arith

convert-to_umts :
    (t : CellType) (d : Detail)
    → is_unknown t ≡ false
    → is_umts t ≡ false
    → (convert t CellType.umts d).id ≡ pos int_max
unfolding convert to_narrow reset
convert-to_umts t d k u = ground arith

to_umts-IsWaiting :
    (g : Bool) (c : Cell)
    → is_unknown c.radio_type ≡ false
    → is_umts c.radio_type ≡ false
    → c.needed ≡ true
    → IsWaiting (change_type g CellType.umts c)
unfolding change_type
to_umts-IsWaiting g c k u n =
    let s = record c {
      radio_type = CellType.umts;
      detail = convert c.radio_type CellType.umts c.detail;
    } in
    let q = notify-same s in
    if-of IsWaiting (same_type c.radio_type CellType.umts) c _
      (λ p. absurd (differs c.radio_type u p))
      (λ _.
        executed-IsWaiting g (notify s) (q.0 ∙ n) q.1
          (ap (λ x. x.id) q.2 ∙ convert-to_umts c.radio_type c.detail k u))
  where
    differs : (t : CellType) → is_umts t ≡ false → same_type t CellType.umts ≡ true → ⊥
    differs t p r = ground arith

-- On a modem whose firmware needs the heuristics, a GSM or LTE cell for which ofono reports the change
-- to a name of UMTS is not valid, and it stays so however the modem's properties change, for as long as
-- no id is reported and no change throws.
pub umts_waits_for_id :
    (g : Bool) (name : String) (es : List Event) (c d : Cell)
    → find name type_lut ≡ some CellType.umts
    → is_unknown c.radio_type ≡ false
    → is_umts c.radio_type ≡ false
    → c.needed ≡ true
    → All IsOther es
    → run g (Event.technology name ∷ es) c ≡ some d
    → d.valid ≡ false
unfolding run handle on_technology IsWaiting
umts_waits_for_id g name es c d f k u n a e =
    (run-IsWaiting g es _ d a (to_umts-IsWaiting g c k u n)
      (subst (λ t. run g es (on_technology g t c) ≡ some d) f e)).0
