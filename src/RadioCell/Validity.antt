-- ===== src/RadioCell/Validity.antt =====
-- What the handler and the heuristics keep true of a cell.
use location_service.Base.{
  Option-cases, inl, inr, ◌≡◌, Bool, true, false, ◌&&◌, ◌||◌, Option, some, none, List, [], ◌∷◌,
  refl, subst, sym, arith,
}
use location_service.Base.Int.{ℤ}
use location_service.RadioCell.{
  CellType, is_unknown, Detail, Cell, is_umts, is_narrow_valid, is_lte_valid, is_cell_details_valid,
  notify, execute_heuristics, timer_expired, on_technology, change_type, convert, to_narrow, to_lte,
  set_code, on_identity, set_strength, type_lut,
}
use location_service.RadioCell.Bounded.{
  Bounds, country_or_network, area, is_valid, set, from_percent-is_valid,
}
use location_service.RadioCell.Events.{
  ◌>>=◌, Event, handle, run, Modem, construct, is_registered_or_roaming, bare, read_detail,
}
use text.Mathlib.Text.{◌==◌ as str_eq}
use location_service.Settings.{find}

-- The three codes that say where the cell is are in their ranges.
unfoldable pub IsPlaced : Detail → Type 0
IsPlaced d =
    (is_valid country_or_network d.mobile_country_code ≡ true)
    × ((is_valid country_or_network d.mobile_network_code ≡ true)
        × (is_valid area d.location_area_code ≡ true))

convert-IsPlaced : (s t : CellType) (d : Detail) → IsPlaced d → IsPlaced (convert s t d)
unfolding convert to_narrow to_lte IsPlaced
convert-IsPlaced s t d h = ground arith

-- What the heuristics and the notification leave as it is.
pub execute_heuristics-same :
    (g : Bool) (c : Cell)
    → (execute_heuristics g c).radio_type ≡ c.radio_type
      × (execute_heuristics g c).detail ≡ c.detail
unfolding execute_heuristics
execute_heuristics-same g c = ground arith

pub notify-same :
    (c : Cell)
    → (notify c).needed ≡ c.needed
      × (notify c).radio_type ≡ c.radio_type
      × (notify c).detail ≡ c.detail
unfolding notify
notify-same c = ground arith

set_code-is_valid :
    (t : CellType) (b : Bounds) (v w x : ℤ)
    → is_valid b x ≡ true
    → set_code t b v x ≡ some w
    → is_valid b w ≡ true
unfolding set_code set is_valid
set_code-is_valid t b v w x h e = ground arith

set_strength-IsPlaced :
    (t : CellType) (v : ℤ) (d : Detail) → IsPlaced d → IsPlaced (set_strength t v d)
unfolding set_strength IsPlaced
set_strength-IsPlaced t v d h = ground arith

change_type-IsPlaced :
    (g : Bool) (t : CellType) (c : Cell) → IsPlaced c.detail → IsPlaced (change_type g t c).detail
unfolding change_type execute_heuristics notify convert to_narrow to_lte IsPlaced
change_type-IsPlaced g t c h = ground arith

on_technology-IsPlaced :
    (g : Bool) (t : Option CellType) (c : Cell)
    → IsPlaced c.detail
    → IsPlaced (on_technology g t c).detail
unfolding on_technology
on_technology-IsPlaced g none c h = h
on_technology-IsPlaced g (some t) c h = change_type-IsPlaced g t c h

on_identity-IsPlaced :
    (g : Bool) (o : Option Detail) (c d : Cell)
    → ((x : Detail) → o ≡ some x → IsPlaced x)
    → on_identity g o c ≡ some d
    → IsPlaced d.detail
unfolding on_identity execute_heuristics notify IsPlaced
on_identity-IsPlaced g none c d h e = ground arith
on_identity-IsPlaced g (some x) c d h e = let k = h x refl in ground arith

pub same_cell : (P : Cell → Type 0) (x d : Cell) → some x ≡ some d → P x → P d
same_cell P x d e = subst P (ground arith)

handle-IsPlaced :
    (g : Bool) (e : Event) (c d : Cell)
    → IsPlaced c.detail
    → handle g e c ≡ some d
    → IsPlaced d.detail
unfolding handle timer_expired on_identity execute_heuristics notify set_code set is_valid IsPlaced
handle-IsPlaced g (Event.technology s) c d h e =
    same_cell (λ c. IsPlaced c.detail) _ d e (on_technology-IsPlaced g (find s type_lut) c h)
handle-IsPlaced g (Event.cell_id v) c d h e = ground arith
handle-IsPlaced g (Event.location_area_code v) c d h e = ground arith
handle-IsPlaced g (Event.mobile_country_code v) c d h e = ground arith
handle-IsPlaced g (Event.mobile_network_code v) c d h e = ground arith
handle-IsPlaced g (Event.strength v) c d h e =
    same_cell (λ c. IsPlaced c.detail)
      (notify (record c { detail = set_strength c.radio_type v c.detail })) d e
      (subst IsPlaced
        (sym (notify-same (record c { detail = set_strength c.radio_type v c.detail })).2)
        (set_strength-IsPlaced c.radio_type v c.detail h))
handle-IsPlaced g (Event.status s) c d h e = ground arith
handle-IsPlaced g Event.expiry c d h e = ground arith

pub >>=-some :
    (o : Option Cell) (f : Cell → Option Cell) (d : Cell)
    → (o >>= f) ≡ some d
    → (x : Cell) × (o ≡ some x) × (f x ≡ some d)
>>=-some none f d e = ground arith
>>=-some (some x) f d e = (x, refl, e)

-- What every single event keeps, events one after the other keep.
run-keeps :
    (g : Bool) (P : Cell → Type 0)
    → ((e : Event) (c d : Cell) → P c → handle g e c ≡ some d → P d)
    → (es : List Event) (c d : Cell) → P c
    → run g es c ≡ some d
    → P d
unfolding run
run-keeps g P keep [] c d h e = same_cell P c d e h
run-keeps g P keep (x ∷ es) c d h e =
    let t = >>=-some (handle g x c) (λ y. run g es y) d e in
    run-keeps g P keep es t.0 d (keep x c t.0 h t.1) t.2

-- However the modem's properties change, the country code, the network code and the area code of a cell
-- stay in their ranges from when they are in them, also across changes of the radio technology, for as
-- long as no change throws.
run-IsPlaced :
    (g : Bool) (es : List Event) (c d : Cell)
    → IsPlaced c.detail
    → run g es c ≡ some d
    → IsPlaced d.detail
run-IsPlaced g = run-keeps g (λ c. IsPlaced c.detail) (handle-IsPlaced g)

-- The cell's details are checked by the heuristics, and where they apply a cell counts as valid only
-- with valid details.
unfoldable pub IsSound : Bool → Cell → Type 0
IsSound g c =
    c.needed && (is_umts c.radio_type || g) ≡ true
    → c.valid ≡ true
    → is_cell_details_valid c.radio_type c.detail ≡ true

execute_heuristics-IsSound : (g : Bool) (c : Cell) → IsSound g (execute_heuristics g c)
unfolding IsSound execute_heuristics
execute_heuristics-IsSound g c = ground arith

set_strength-valid :
    (t : CellType) (v : ℤ) (d : Detail)
    → is_cell_details_valid t d ≡ true
    → is_cell_details_valid t (set_strength t v d) ≡ true
unfolding is_cell_details_valid is_narrow_valid is_lte_valid set_strength
set_strength-valid t v d h = let k = from_percent-is_valid v in ground arith

change_type-IsSound :
    (g : Bool) (t : CellType) (c : Cell) → IsSound g c → IsSound g (change_type g t c)
unfolding IsSound change_type execute_heuristics notify
change_type-IsSound g t c h = ground arith

on_technology-IsSound :
    (g : Bool) (t : Option CellType) (c : Cell) → IsSound g c → IsSound g (on_technology g t c)
unfolding on_technology
on_technology-IsSound g none c h = h
on_technology-IsSound g (some t) c h = change_type-IsSound g t c h

on_identity-IsSound :
    (g : Bool) (o : Option Detail) (c d : Cell) → on_identity g o c ≡ some d → IsSound g d
unfolding on_identity
on_identity-IsSound g none c d e = ground arith
on_identity-IsSound g (some x) c d e = same_cell (IsSound g) _ d e (execute_heuristics-IsSound g _)

strength-IsSound :
    (g : Bool) (v : ℤ) (c : Cell)
    → IsSound g c
    → IsSound g (notify (record c { detail = set_strength c.radio_type v c.detail }))
unfolding IsSound notify
strength-IsSound g v c h = let k = set_strength-valid c.radio_type v c.detail in ground arith

pub handle-IsSound :
    (g : Bool) (e : Event) (c d : Cell) → IsSound g c → handle g e c ≡ some d → IsSound g d
unfolding handle timer_expired IsSound
handle-IsSound g (Event.technology s) c d h e =
    same_cell (IsSound g) _ d e (on_technology-IsSound g (find s type_lut) c h)
handle-IsSound g (Event.cell_id v) c d h e = on_identity-IsSound g _ c d e
handle-IsSound g (Event.location_area_code v) c d h e = on_identity-IsSound g _ c d e
handle-IsSound g (Event.mobile_country_code v) c d h e = on_identity-IsSound g _ c d e
handle-IsSound g (Event.mobile_network_code v) c d h e = on_identity-IsSound g _ c d e
handle-IsSound g (Event.strength v) c d h e = same_cell (IsSound g) _ d e (strength-IsSound g v c h)
handle-IsSound g (Event.status s) c d h e =
    same_cell (IsSound g) (record c { roaming = str_eq s "roaming" }) d e h
handle-IsSound g Event.expiry c d h e = same_cell (IsSound g) (timer_expired c) d e (ground arith)

pub construct-IsSound :
    (g needed : Bool) (memory : Detail) (m : Modem) (c : Cell)
    → is_registered_or_roaming m.status ≡ true
    → is_unknown m.technology ≡ false
    → construct g needed memory m ≡ some c
    → IsSound g c
unfolding construct
construct-IsSound g needed memory m c r k e = elim (Option-cases (read_detail memory m)) [
  | inl q ↦ ground arith
  | inr t ↦
      same_cell (IsSound g)
        (execute_heuristics g
          (record (bare needed memory m) { detail = t.0; roaming = str_eq m.status "roaming" }))
        c (let q = t.1 in ground arith) (execute_heuristics-IsSound g _)
]

-- Of a cell that was constructed while the modem was registered with a known technology: whatever
-- events follow of which none throws, where the change heuristics apply to the cell (the modem's firmware
-- needs them, and the cell is a UMTS cell or they are switched on for all cells) the cell counts as valid
-- only while all its details are in their ranges.
pub valid_only_if_complete :
    (g needed : Bool) (memory : Detail) (m : Modem) (es : List Event) (c d : Cell)
    → is_registered_or_roaming m.status ≡ true
    → is_unknown m.technology ≡ false
    → construct g needed memory m ≡ some c
    → run g es c ≡ some d
    → d.needed && (is_umts d.radio_type || g) ≡ true
    → d.valid ≡ true
    → is_cell_details_valid d.radio_type d.detail ≡ true
unfolding IsSound
valid_only_if_complete g needed memory m es c d r k e q =
    run-keeps g (IsSound g) (handle-IsSound g) es c d (construct-IsSound g needed memory m c r k e)
      q
