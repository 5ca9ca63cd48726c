-- ===== src/Service/Submitted.antt =====
-- What the arrays of a submission contain of the networks and cells, and what they never contain.
use Prim.Native.String.{String}
use text.Mathlib.Text.{◌==◌ as str_eq}
use location_service.Base.{
  ◌≡◌, refl, sym, subst, Bool, true, ◌||◌, List, [], ◌∷◌, ◌++◌, if◌then◌else◌, arith, All, if-of,
}
use location_service.Base.Int.{ℤ, eqb_ℤ_iff}
use location_service.RadioCell.{
  CellType, unknown, gsm, umts, lte, Detail, Cell, is_cell_details_valid, is_narrow_valid,
  is_lte_valid,
}
use location_service.RadioCell.Bounded.{
  Bounds, country_or_network, area, gsm_id, wide_id, physical, signal, is_valid,
}
use location_service.Connectivity.Wireless.{Network, frequency_bounds}
use location_service.Service.Ichnaea.{
  Leaf, string, int32, Entries, nomap, is_prefix, has_infix, put_valid, convert_wifis_to_json,
  codes, cell_object, convert_cells_to_json,
}

is_prefix-append : (m s : List ℤ) → is_prefix m (m ++ s) ≡ true
is_prefix-append [] s = refl
is_prefix-append (c ∷ cs) s =
    let h = is_prefix-append cs s in let k = (eqb_ℤ_iff c c).1 refl in ground arith

has_infix-append : (m s t : List ℤ) → has_infix m (s ++ (m ++ t)) ≡ true
unfolding has_infix
has_infix-append [] [] [] = refl
has_infix-append [] [] (d ∷ t) = refl
has_infix-append (c ∷ cs) [] t = let h = is_prefix-append (c ∷ cs) t in ground arith
has_infix-append m (d ∷ s) t = let h = has_infix-append m s t in ground arith

-- The array of wireless networks that `convert_wifis_to_json` makes is the same with and without a network whose ssid
-- has "_nomap" anywhere: none of its properties is in the array, and the other networks are converted as before.
pub convert_wifis_to_json-nomap :
    (before after : List Network) (n : Network) (s t : List ℤ)
    → n.ssid ≡ s ++ (nomap ++ t)
    → convert_wifis_to_json (before ++ (n ∷ after)) ≡ convert_wifis_to_json (before ++ after)
unfolding convert_wifis_to_json
convert_wifis_to_json-nomap [] after n s t h =
    let k = subst (λ u. has_infix nomap u ≡ true) (sym h) (has_infix-append nomap s t) in
    ground arith
convert_wifis_to_json-nomap (m ∷ before) after n s t h =
    let k = convert_wifis_to_json-nomap before after n s t h in ground arith

-- A number that is submitted is one that its key can have.
unfoldable pub is_code : String × Leaf → Bool
unfolding is_valid
is_code (key, string s) = true
is_code (key, int32 v) =
    if str_eq key "mcc" || str_eq key "mnc"
    then is_valid country_or_network v
    else if str_eq key "lac"
    then is_valid area v
    else if str_eq key "cid"
    then is_valid wide_id v
    else if str_eq key "psc"
    then is_valid physical v
    else if str_eq key "asu"
    then is_valid signal v
    else is_valid frequency_bounds v

All-append : {A : Type 0} (P : A → Type 0) (xs ys : List A) → All P xs → All P ys → All P (xs ++ ys)
All-append P [] ys h k = k
All-append P (x ∷ xs) ys h k = (h.0, All-append P xs ys h.1 k)

abbrev IsCoded : Entries → Type 0
IsCoded e = All (λ x. is_code x ≡ true) e

put_valid-IsCoded :
    (key : String) (b : Bounds) (v : ℤ)
    → (is_valid b v ≡ true → is_code (key, int32 v) ≡ true)
    → IsCoded (put_valid key b v)
unfolding put_valid
put_valid-IsCoded key b v f =
    if-of IsCoded (is_valid b v) ((key, int32 v) ∷ []) [] (λ e. (f e, tt)) (λ _. tt)

narrow_id : (v : ℤ) → is_valid gsm_id v ≡ true → is_valid wide_id v ≡ true
unfolding is_valid
narrow_id v h = ground arith

codes-IsCoded :
    (ids : Bounds) (d : Detail)
    → ((v : ℤ) → is_valid ids v ≡ true → is_valid wide_id v ≡ true)
    → IsCoded (codes ids d)
unfolding codes is_code
codes-IsCoded ids d f =
    All-append _ (put_valid "mcc" country_or_network d.mobile_country_code) _
      (put_valid-IsCoded "mcc" country_or_network d.mobile_country_code (λ h. h))
      (All-append _ (put_valid "mnc" country_or_network d.mobile_network_code) _
        (put_valid-IsCoded "mnc" country_or_network d.mobile_network_code (λ h. h))
        (All-append _ (put_valid "lac" area d.location_area_code) _
          (put_valid-IsCoded "lac" area d.location_area_code (λ h. h))
          (put_valid-IsCoded "cid" ids d.id (f d.id))))

cell_object-IsCoded : (t : CellType) (d : Detail) → IsCoded (cell_object t d)
unfolding cell_object is_code
cell_object-IsCoded unknown d = tt
cell_object-IsCoded gsm d = (
  refl,
  All-append _ (codes gsm_id d) _ (codes-IsCoded gsm_id d narrow_id)
      (put_valid-IsCoded "asu" signal d.strength_or_physical_id (λ h. h)),
)
cell_object-IsCoded umts d = (
  refl,
  All-append _ (codes wide_id d) _ (codes-IsCoded wide_id d (λ v h. h))
      (put_valid-IsCoded "asu" signal d.strength_or_physical_id (λ h. h)),
)
cell_object-IsCoded lte d = (
  refl,
  All-append _ (codes wide_id d) _ (codes-IsCoded wide_id d (λ v h. h)) (
      All-append _ (put_valid "psc" physical d.strength_or_physical_id) _
        (put_valid-IsCoded "psc" physical d.strength_or_physical_id (λ h. h))
        (put_valid-IsCoded "asu" signal d.lte_strength (λ h. h))),
)

-- Whatever state the cells are in, every number that is submitted of them is in the range of its key: a code
-- that was never set, or was reset, is left out.
convert_cells_to_json-is_code :
    (cells : List Cell) → All (λ e. All (λ x. is_code x ≡ true) e) (convert_cells_to_json cells)
unfolding convert_cells_to_json
convert_cells_to_json-is_code [] = tt
convert_cells_to_json-is_code (c ∷ rest) =
    (cell_object-IsCoded c.radio_type c.detail, convert_cells_to_json-is_code rest)

-- All codes of a cell, as they are submitted.
abbrev narrow_entries : String → Detail → Entries
narrow_entries radio d =
    ("radio", string radio)
    ∷ ("mcc", int32 d.mobile_country_code)
    ∷ ("mnc", int32 d.mobile_network_code)
    ∷ ("lac", int32 d.location_area_code)
    ∷ ("cid", int32 d.id)
    ∷ ("asu", int32 d.strength_or_physical_id)
    ∷ []

abbrev lte_entries : Detail → Entries
lte_entries d =
    ("radio", string "lte")
    ∷ ("mcc", int32 d.mobile_country_code)
    ∷ ("mnc", int32 d.mobile_network_code)
    ∷ ("lac", int32 d.location_area_code)
    ∷ ("cid", int32 d.id)
    ∷ ("psc", int32 d.strength_or_physical_id)
    ∷ ("asu", int32 d.lte_strength)
    ∷ []

unfoldable pub all_entries : CellType → Detail → Entries
all_entries unknown d = []
all_entries gsm d = narrow_entries "gsm" d
all_entries umts d = narrow_entries "umts" d
all_entries lte d = lte_entries d

-- A cell whose details are valid is submitted with its type and every one of its codes.
cell_object-all_entries :
    (t : CellType) (d : Detail)
    → is_cell_details_valid t d ≡ true
    → cell_object t d ≡ all_entries t d
unfolding cell_object codes put_valid all_entries is_cell_details_valid is_narrow_valid is_lte_valid
cell_object-all_entries unknown d h = refl
cell_object-all_entries gsm d h = ground arith
cell_object-all_entries umts d h = ground arith
cell_object-all_entries lte d h = ground arith
