-- ===== src/Gps/Xtra.antt =====
-- The configuration of the download of xtra data in android_hardware_abstraction_layer.cpp.
use Prim.Native.String.{String}
use location_service.Base.{◌≡◌, ap, ◌∙◌, Option, none, some, List, [], ◌∷◌, ◌++◌}
use location_service.Settings.{find}

abbrev pub added : Option String → List String
added none = []
added (some value) = value ∷ []

-- `if (config.count(key) > 0) result.xtra_hosts.push_back(config.get<std::string>(key))`
unfoldable pub host : String → List (String × String) → List String
unfolding find
host key config = added (find key config)

-- `from_gps_conf_ini_file`, from what the file has, where it can be read.
unfoldable pub from_gps_conf_ini_file : List (String × String) → List String
unfolding host
from_gps_conf_ini_file config =
    host "XTRA_SERVER_1" config ++ (host "XTRA_SERVER_2" config ++ host "XTRA_SERVER_3" config)

abbrev pub default_hosts : List String
default_hosts =
    "http://xtra1.gpsonextra.net/xtra2.bin" ∷ "http://xtra2.gpsonextra.net/xtra2.bin"
    ∷ "http://xtra3.gpsonextra.net/xtra2.bin" ∷ []

-- `gps_xtra_downloader_configuration`; `none` is a file that cannot be read.
unfoldable pub gps_xtra_downloader_configuration : Option (List (String × String)) → List String
unfolding from_gps_conf_ini_file
gps_xtra_downloader_configuration none = default_hosts
gps_xtra_downloader_configuration (some config) = from_gps_conf_ini_file config

-- A file that can be read and names no server leaves the download without hosts: the default ones are for
-- files that cannot be read.
no_servers :
    (config : List (String × String))
    → find "XTRA_SERVER_1" config ≡ none
    → find "XTRA_SERVER_2" config ≡ none
    → find "XTRA_SERVER_3" config ≡ none
    → gps_xtra_downloader_configuration (some config) ≡ []
unfolding gps_xtra_downloader_configuration from_gps_conf_ini_file host
no_servers config a b c =
    ap (λ o. added o ++ (host "XTRA_SERVER_2" config ++ host "XTRA_SERVER_3" config)) a
    ∙ ap (λ o. added o ++ host "XTRA_SERVER_3" config) b
    ∙ ap added c
