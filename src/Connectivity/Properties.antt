-- ===== src/Connectivity/Properties.antt =====
-- What the properties of a wireless network are after its access point has announced changes.
use Prim.Native.String.{String}
use location_service.Base.{
  ap, ◌∙◌, ◌≡◌, sym, subst, inl, inr, Option-cases, refl, true, Option, none, some, List, [], ◌∷◌,
  arith,
}
use location_service.Base.Int.{ℤ}
use location_service.Settings.{find}
use location_service.RadioCell.Bounded.{Bounds, set, is_valid, set-is_valid}
use location_service.RadioCell.Events.{◌>>=◌, map_option}
use location_service.Connectivity.Wireless.{
  Mode, frequency_bounds, strength_bounds, Network, Variant, as_text, as_bytes, as_byte,
  as_unsigned, as_signed, wifi_mode_from_ap_mode, to_int, translate_time_stamp, AccessPoint, Key,
  hw_address, ssid, strength, frequency, mode, last_seen, lut, construct, set_property, or_else,
  update_property, on_access_point_properties_changed,
}

-- What one entry of the changes says about each of the properties, if anything.
abbrev new_bssid : Option Key → Variant → Option String
new_bssid (some hw_address) v = as_text v
new_bssid _ v = none

abbrev new_ssid : Option Key → Variant → Option (List ℤ)
new_ssid (some ssid) v = as_bytes v
new_ssid _ v = none

abbrev new_strength : Option Key → Variant → Option ℤ
new_strength (some strength) v = as_byte v >>= set strength_bounds
new_strength _ v = none

abbrev new_frequency : Option Key → Variant → Option ℤ
new_frequency (some frequency) v = as_unsigned v >>= (λ f. set frequency_bounds (to_int f))
new_frequency _ v = none

abbrev new_mode : Option Key → Variant → Option Mode
new_mode (some mode) v = map_option wifi_mode_from_ap_mode (as_unsigned v)
new_mode _ v = none

abbrev new_last_seen : ℤ → Option Key → Variant → Option ℤ
new_last_seen booted (some last_seen) v = map_option (translate_time_stamp booted) (as_signed v)
new_last_seen booted _ v = none

-- The last entry that says something has it.
unfoldable pub latest :
    {A : Type 0} → (Option Key → Variant → Option A) → List (String × Variant) → A → A
latest new [] a = a
latest new ((name, v) ∷ dict) a = latest new dict (or_else a (new (find name lut) v))

unfoldable pub updated : ℤ → List (String × Variant) → Network → Network
unfolding latest
updated booted dict n = record {
  last_seen = latest (new_last_seen booted) dict n.last_seen;
  bssid = latest new_bssid dict n.bssid;
  ssid = latest new_ssid dict n.ssid;
  mode = latest new_mode dict n.mode;
  frequency = latest new_frequency dict n.frequency;
  signal_strength = latest new_strength dict n.signal_strength;
}

update_property_lem :
    (booted : ℤ) (k : Option Key) (v : Variant) (n : Network)
    → update_property booted k v n ≡ record {
      last_seen = or_else n.last_seen (new_last_seen booted k v);
      bssid = or_else n.bssid (new_bssid k v);
      ssid = or_else n.ssid (new_ssid k v);
      mode = or_else n.mode (new_mode k v);
      frequency = or_else n.frequency (new_frequency k v);
      signal_strength = or_else n.signal_strength (new_strength k v);
    }
unfolding update_property set_property
update_property_lem booted none v n = refl
update_property_lem booted (some hw_address) v n = ground arith
update_property_lem booted (some ssid) v n = ground arith
update_property_lem booted (some strength) v n = ground arith
update_property_lem booted (some frequency) v n = ground arith
update_property_lem booted (some mode) v n = ground arith
update_property_lem booted (some last_seen) v n = ground arith

-- After a dictionary of changes each property of the network is what the last of its entries says that has
-- the right type and is within the bounds, and stays what it was if there is none: neither the entries of the
-- other properties nor those that throw count, and none of them stops the rest.
pub on_access_point_properties_changed_lem :
    (booted : ℤ) (dict : List (String × Variant)) (n : Network)
    → on_access_point_properties_changed booted dict n ≡ updated booted dict n
unfolding on_access_point_properties_changed updated latest
on_access_point_properties_changed_lem booted [] n = refl
on_access_point_properties_changed_lem booted ((name, v) ∷ dict) n =
    ap (on_access_point_properties_changed booted dict)
      (update_property_lem booted (find name lut) v n)
    ∙ on_access_point_properties_changed_lem booted dict _

-- The two numbers of a network are within their bounds.
unfoldable pub IsTuned : Network → Type 0
IsTuned n =
    (is_valid frequency_bounds n.frequency ≡ true)
    × (is_valid strength_bounds n.signal_strength ≡ true)

construct-IsTuned :
    (booted : ℤ) (a : AccessPoint) (n : Network) → construct booted a ≡ some n → IsTuned n
unfolding construct IsTuned
construct-IsTuned booted a n h = elim (Option-cases (set frequency_bounds (to_int a.frequency))) [
  | inl e ↦ ground arith
  | inr (f, e) ↦ elim (Option-cases (set strength_bounds a.strength)) [
    | inl d ↦ ground arith
    | inr (s, d) ↦
        let k = set-is_valid frequency_bounds (to_int a.frequency) f e in
        let l = set-is_valid strength_bounds a.strength s d in ground arith
  ]
]

latest-Keeps :
    {A : Type 0} (P : A → Type 0) (new : Option Key → Variant → Option A)
    → ((k : Option Key) (v : Variant) (a : A) → P a → P (or_else a (new k v)))
    → (dict : List (String × Variant)) (a : A) → P a
    → P (latest new dict a)
unfolding latest
latest-Keeps P new f [] a h = h
latest-Keeps P new f ((name, v) ∷ dict) a h = latest-Keeps P new f dict _ (f (find name lut) v a h)

set-or_else :
    (b : Bounds) (o : Option ℤ) (a : ℤ)
    → is_valid b a ≡ true
    → is_valid b (or_else a (o >>= set b)) ≡ true
set-or_else b none a h = h
set-or_else b (some v) a h = elim (Option-cases (set b v)) [
  | inl e ↦ subst (λ o. is_valid b (or_else a o) ≡ true) (sym e) h
  | inr (w, e) ↦ subst (λ o. is_valid b (or_else a o) ≡ true) (sym e) (set-is_valid b v w e)
]

new_frequency-set_or_else :
    (k : Option Key) (v : Variant) (a : ℤ)
    → is_valid frequency_bounds a ≡ true
    → is_valid frequency_bounds (or_else a (new_frequency k v)) ≡ true
new_frequency-set_or_else (some frequency) v a h = elim (Option-cases (as_unsigned v)) [
  | inl e ↦ rw e h
  | inr (n, e) ↦ rw e (set-or_else frequency_bounds (some (to_int n)) a h)
]
new_frequency-set_or_else none v a h = h
new_frequency-set_or_else (some hw_address) v a h = h
new_frequency-set_or_else (some ssid) v a h = h
new_frequency-set_or_else (some strength) v a h = h
new_frequency-set_or_else (some mode) v a h = h
new_frequency-set_or_else (some last_seen) v a h = h

new_strength-set_or_else :
    (k : Option Key) (v : Variant) (a : ℤ)
    → is_valid strength_bounds a ≡ true
    → is_valid strength_bounds (or_else a (new_strength k v)) ≡ true
new_strength-set_or_else (some strength) v a h = set-or_else strength_bounds (as_byte v) a h
new_strength-set_or_else none v a h = h
new_strength-set_or_else (some hw_address) v a h = h
new_strength-set_or_else (some ssid) v a h = h
new_strength-set_or_else (some frequency) v a h = h
new_strength-set_or_else (some mode) v a h = h
new_strength-set_or_else (some last_seen) v a h = h

changed-IsTuned :
    (booted : ℤ) (dict : List (String × Variant)) (n : Network)
    → IsTuned n
    → IsTuned (on_access_point_properties_changed booted dict n)
unfolding IsTuned updated
changed-IsTuned booted dict n h = rw (on_access_point_properties_changed_lem booted dict n) (
  latest-Keeps (λ f. is_valid frequency_bounds f ≡ true) new_frequency new_frequency-set_or_else
      dict n.frequency h.0,
  latest-Keeps (λ f. is_valid strength_bounds f ≡ true) new_strength new_strength-set_or_else dict
      n.signal_strength h.1,
)

unfoldable pub changes : ℤ → List (List (String × Variant)) → Network → Network
unfolding on_access_point_properties_changed
changes booted [] n = n
changes booted (dict ∷ rest) n =
    changes booted rest (on_access_point_properties_changed booted dict n)

changes-IsTuned :
    (booted : ℤ) (dicts : List (List (String × Variant))) (n : Network)
    → IsTuned n
    → IsTuned (changes booted dicts n)
unfolding changes
changes-IsTuned booted [] n h = h
changes-IsTuned booted (dict ∷ rest) n h =
    changes-IsTuned booted rest _ (changed-IsTuned booted dict n h)

-- A wireless network whose constructor did not throw has a frequency from 2412 to 5825 and a signal strength
-- from 0 to 100, whatever changes its access point announced since.
construct-changes-IsTuned :
    (booted : ℤ) (a : AccessPoint) (n : Network) (dicts : List (List (String × Variant)))
    → construct booted a ≡ some n
    → IsTuned (changes booted dicts n)
construct-changes-IsTuned booted a n dicts h =
    changes-IsTuned booted dicts n (construct-IsTuned booted a n h)
