-- ===== src/Connectivity/Characteristics.antt =====
-- The characteristics of the active connection.
use location_service.Base.{
  ℕ, ap, ◌∙◌, ◌≡◌, Bool, true, false, ◌&&◌, ◌||◌, Option, none, some, List, [], ◌∷◌, arith,
}
use location_service.Base.Maps.{find}
use location_service.Connectivity.Networks.{DeviceType, modem, wifi, other}

-- The flags of `Characteristics`.
pub record Characteristics : Type 0 where
  pub via_wifi : Bool
  pub via_wwan : Bool
  pub is_roaming : Bool
  pub has_monetary_costs : Bool
  pub is_volume_limited : Bool
  pub is_bandwith_limited : Bool

abbrev pub no_characteristics : Characteristics
no_characteristics = record {
  via_wifi = false;
  via_wwan = false;
  is_roaming = false;
  has_monetary_costs = false;
  is_volume_limited = false;
  is_bandwith_limited = false;
}

abbrev pub all_characteristics : Characteristics
all_characteristics = record no_characteristics {
  has_monetary_costs = true;
  is_volume_limited = true;
  is_bandwith_limited = true;
}

abbrev pub connection_goes_via_wifi : Characteristics
connection_goes_via_wifi = record no_characteristics { via_wifi = true }

abbrev pub connection_goes_via_wwan : Characteristics
connection_goes_via_wwan = record no_characteristics { via_wwan = true }

abbrev pub connection_is_roaming : Characteristics
connection_is_roaming = record no_characteristics { is_roaming = true }

infix 40 ◌∪◌
unfoldable pub ◌∪◌ : Characteristics → Characteristics → Characteristics
l ∪ r = record {
  via_wifi = l.via_wifi || r.via_wifi;
  via_wwan = l.via_wwan || r.via_wwan;
  is_roaming = l.is_roaming || r.is_roaming;
  has_monetary_costs = l.has_monetary_costs || r.has_monetary_costs;
  is_volume_limited = l.is_volume_limited || r.is_volume_limited;
  is_bandwith_limited = l.is_bandwith_limited || r.is_bandwith_limited;
}

-- What the modems answer when they are asked for their registration: that they roam, that they do not, or an
-- exception.
unfoldable pub ask_modems : List (Option Bool) → Characteristics → Characteristics
unfolding ◌∪◌
ask_modems [] c = c
ask_modems (some false ∷ rest) c = ask_modems rest c
ask_modems (some true ∷ rest) c = ask_modems rest (c ∪ connection_is_roaming)
ask_modems (none ∷ rest) c = ask_modems rest (c ∪ connection_is_roaming)

unfoldable pub add_type : List (Option Bool) → Option DeviceType → Characteristics → Characteristics
unfolding ask_modems ◌∪◌
add_type modems (some modem) c =
    ask_modems modems (c ∪ connection_goes_via_wwan) ∪ all_characteristics
add_type modems (some wifi) c = c ∪ connection_goes_via_wifi
add_type modems _ c = c

-- `enumerate_devices` calls back for the devices' paths, until an exception ends it.
unfoldable pub enumerate_devices :
    List (ℕ × DeviceType) → List (Option Bool) → List (Option ℕ) → Characteristics → Characteristics
unfolding add_type find
enumerate_devices cached modems [] c = c
enumerate_devices cached modems (none ∷ rest) c = c
enumerate_devices cached modems (some path ∷ rest) c =
    enumerate_devices cached modems rest (add_type modems (find path cached) c)

unfoldable pub characteristics_for_connection :
    List (ℕ × DeviceType) → List (Option Bool) → List (Option ℕ) → Characteristics
unfolding enumerate_devices
characteristics_for_connection cached modems paths =
    enumerate_devices cached modems paths no_characteristics

-- A modem roams as far as one knows.
unfoldable pub may_roam : List (Option Bool) → Bool
may_roam [] = false
may_roam (some b ∷ rest) = b || may_roam rest
may_roam (none ∷ rest) = true

abbrev pub is_modem : Option DeviceType → Bool
is_modem (some modem) = true
is_modem _ = false

abbrev pub is_wifi : Option DeviceType → Bool
is_wifi (some wifi) = true
is_wifi _ = false

-- A device that is listed before the exception, if there is one, passes a test.
unfoldable pub reaches : (Option DeviceType → Bool) → List (ℕ × DeviceType) → List (Option ℕ) → Bool
unfolding find
reaches test cached [] = false
reaches test cached (none ∷ rest) = false
reaches test cached (some path ∷ rest) = test (find path cached) || reaches test cached rest

abbrev described : Bool → Bool → Bool → Characteristics
described w m r = record {
  via_wifi = w;
  via_wwan = m;
  is_roaming = m && r;
  has_monetary_costs = m;
  is_volume_limited = m;
  is_bandwith_limited = m;
}

ask_modems_lem :
    (modems : List (Option Bool)) (c : Characteristics)
    → ask_modems modems c ≡ record c { is_roaming = c.is_roaming || may_roam modems }
unfolding ask_modems may_roam ◌∪◌
ask_modems_lem [] c = ground arith
ask_modems_lem (none ∷ rest) c =
    let h = ask_modems_lem rest (c ∪ connection_is_roaming) in ground arith
ask_modems_lem (some true ∷ rest) c =
    let h = ask_modems_lem rest (c ∪ connection_is_roaming) in ground arith
ask_modems_lem (some false ∷ rest) c = let h = ask_modems_lem rest c in ground arith

add_type_lem :
    (modems : List (Option Bool)) (o : Option DeviceType) (w m : Bool)
    → add_type modems o (described w m (may_roam modems))
      ≡ described (w || is_wifi o) (m || is_modem o) (may_roam modems)
unfolding add_type ◌∪◌
add_type_lem modems none w m = ground arith
add_type_lem modems (some other) w m = ground arith
add_type_lem modems (some wifi) w m = ground arith
add_type_lem modems (some modem) w m =
    let h = ask_modems_lem modems (described w m (may_roam modems) ∪ connection_goes_via_wwan) in
    ap (λ c. c ∪ all_characteristics) h ∙ ground arith

enumerate_devices_lem :
    (cached : List (ℕ × DeviceType)) (modems : List (Option Bool)) (paths : List (Option ℕ))
    (w m : Bool)
    → enumerate_devices cached modems paths (described w m (may_roam modems))
      ≡ described
          (w || reaches is_wifi cached paths)
          (m || reaches is_modem cached paths)
          (may_roam modems)
unfolding enumerate_devices reaches
enumerate_devices_lem cached modems [] w m = ground arith
enumerate_devices_lem cached modems (none ∷ rest) w m = ground arith
enumerate_devices_lem cached modems (some path ∷ rest) w m =
    let k =
      enumerate_devices_lem cached modems rest (w || is_wifi (find path cached))
        (m || is_modem (find path cached)) in
    ap (enumerate_devices cached modems rest) (add_type_lem modems (find path cached) w m)
    ∙ (k ∙ ground arith)

-- Of the devices that are listed before the list breaks off, those in the cache count: the connection goes
-- over wifi if one of them is a wifi device, and over wwan if one is a modem. In the latter case, and only
-- then, it has monetary costs and is limited in volume and bandwidth, and it is roaming if some modem in the
-- cache says so or does not answer. A list that breaks off does not reset what was found before.
pub characteristics_for_connection_lem :
    (cached : List (ℕ × DeviceType)) (modems : List (Option Bool)) (paths : List (Option ℕ))
    → let wwan = reaches is_modem cached paths in
      characteristics_for_connection cached modems paths ≡ record {
        via_wifi = reaches is_wifi cached paths;
        via_wwan = wwan;
        is_roaming = wwan && may_roam modems;
        has_monetary_costs = wwan;
        is_volume_limited = wwan;
        is_bandwith_limited = wwan;
      }
unfolding characteristics_for_connection
characteristics_for_connection_lem cached modems paths =
    enumerate_devices_lem cached modems paths false false
