-- ===== src/Connectivity/Heard.antt =====
-- What listeners to the signals of the wireless networks know.
use location_service.Base.{ℕ, ◌≡◌, ◌==◌, if◌then◌else◌, Option, none, some, List, [], ◌∷◌, All}
use location_service.Base.Maps.{find}
use location_service.Connectivity.Networks.{
  Network, Announcement, network_added, network_removed, Cache,
}

-- What the announcements say of the network of an access point, the newest first: the one that was added last, unless it
-- was removed since.
unfoldable pub latest : ℕ → List Announcement → Option Network
latest p [] = none
latest p (network_added w ∷ older) =
    let before = latest p older in if w.access_point == p then some w else before
latest p (network_removed w ∷ older) =
    let before = latest p older in if w.access_point == p then none else before

-- No path stands in the map twice.
unfoldable IsUnique : List (ℕ × Network) → Type 0
unfolding find
IsUnique [] = Unit
IsUnique ((q, w) ∷ rest) = (find q rest ≡ none) × IsUnique rest

-- A network stands under the path of its access point and no other does, and the announcements say what is in the cache.
record IsHeard (c : Cache) : Type 0 where
  keyed : All (λ x. x.1.access_point ≡ x.0) c.wifis
  unique : IsUnique c.wifis
  said : (q : ℕ) → latest q c.announced ≡ find q c.wifis
