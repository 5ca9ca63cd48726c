-- ===== src/Connectivity/Networks.antt =====
-- The caches of NetworkManager's devices and of visible wireless networks.
use location_service.Base.{
  ℕ, suc, Bool, true, false, Option, none, some, List, [], ◌∷◌, if◌then◌else◌, is_some,
}
use location_service.Base.Maps.{find, erase, assign}

pub data DeviceType : Type 0 where
  modem : DeviceType
  wifi : DeviceType
  other : DeviceType

-- `CachedWirelessNetwork`: the number of the object, and the access point and the device that it reads from.
pub record Network : Type 0 where
  pub id : ℕ
  pub access_point : ℕ
  pub device : ℕ

-- `signals.wireless_network_added` and `signals.wireless_network_removed`
pub data Announcement : Type 0 where
  network_added : Network → Announcement
  network_removed : Network → Announcement

-- `Private::cached` as far as the network stack is concerned; the newest announcement comes first.
pub record Cache : Type 0 where
  pub nm_devices : List (ℕ × DeviceType)
  pub wifis : List (ℕ × Network)
  pub next : ℕ
  pub announced : List Announcement

abbrev pub empty : Cache
empty = record { nm_devices = []; wifis = []; next = 0; announced = [] }

-- `operator[]` of a map, assigned to.
unfoldable pub put : ℕ → Network → List (ℕ × Network) → List (ℕ × Network)
unfolding find assign
put p w m = if is_some (find p m) then assign p w m else (p, w) ∷ m

abbrev pub new_network : ℕ → ℕ → Cache → Network
new_network ap_path device_path c = record {
  id = c.next;
  access_point = ap_path;
  device = device_path;
}

-- The flag says that the properties of the access point could be read: otherwise the constructor throws.
unfoldable pub add_network : ℕ → ℕ → Bool → Cache → Cache
unfolding put
add_network ap_path device_path false c = c
add_network ap_path device_path true c = record c {
  wifis = put ap_path (new_network ap_path device_path c) c.wifis;
  next = suc c.next;
  announced = network_added (new_network ap_path device_path c) ∷ c.announced;
}

unfoldable pub add_to_device : ℕ → ℕ → Bool → Option DeviceType → Cache → Cache
unfolding add_network
add_to_device ap_path device_path readable (some wifi) c =
    add_network ap_path device_path readable c
add_to_device ap_path device_path readable _ c = c

unfoldable pub on_access_point_added : ℕ → ℕ → Bool → Cache → Cache
unfolding add_to_device find
on_access_point_added ap_path device_path readable c =
    add_to_device ap_path device_path readable (find device_path c.nm_devices) c

unfoldable pub remove_network : ℕ → Option Network → Cache → Cache
unfolding erase
remove_network ap_path none c = c
remove_network ap_path (some w) c = record c {
  wifis = erase ap_path c.wifis;
  announced = network_removed w ∷ c.announced;
}

unfoldable pub on_access_point_removed : ℕ → Cache → Cache
unfolding remove_network find
on_access_point_removed ap_path c = remove_network ap_path (find ap_path c.wifis) c

-- `for_each_access_point`, over what the device lists.
unfoldable pub for_each_access_point : ℕ → List (ℕ × Bool) → Cache → Cache
unfolding on_access_point_added
for_each_access_point device_path [] c = c
for_each_access_point device_path ((path, readable) ∷ rest) c =
    for_each_access_point device_path rest (on_access_point_added path device_path readable c)

unfoldable pub add_device : ℕ → DeviceType → List (ℕ × Bool) → Cache → Cache
unfolding for_each_access_point
add_device path modem points c = record c { nm_devices = (path, modem) ∷ c.nm_devices }
add_device path wifi points c =
    for_each_access_point path points (record c { nm_devices = (path, wifi) ∷ c.nm_devices })
add_device path other points c = c

unfoldable pub on_device_added : ℕ → DeviceType → List (ℕ × Bool) → Cache → Cache
unfolding add_device find
on_device_added path type points c =
    if is_some (find path c.nm_devices) then c else add_device path type points c

unfoldable pub on_device_removed : ℕ → Cache → Cache
unfolding erase
on_device_removed path c = record c { nm_devices = erase path c.nm_devices }

unfoldable pub values : List (ℕ × Network) → List Network
values [] = []
values ((p, w) ∷ rest) = w ∷ values rest

unfoldable pub enumerate_visible_wireless_networks : Cache → List Network
unfolding values
enumerate_visible_wireless_networks c = values c.wifis

-- The signals of NetworkManager.
pub data Event : Type 0 where
  device_added : ℕ → DeviceType → List (ℕ × Bool) → Event
  device_removed : ℕ → Event
  ap_added : ℕ → ℕ → Bool → Event
  ap_removed : ℕ → Event

unfoldable pub step : Event → Cache → Cache
unfolding on_device_added on_device_removed on_access_point_added on_access_point_removed
step (device_added path type points) c = on_device_added path type points c
step (device_removed path) c = on_device_removed path c
step (ap_added ap_path device_path readable) c =
    on_access_point_added ap_path device_path readable c
step (ap_removed ap_path) c = on_access_point_removed ap_path c

unfoldable pub run : List Event → Cache → Cache
unfolding step
run [] c = c
run (v ∷ vs) c = run vs (step v c)
