-- ===== src/Http/Json/Texts.antt =====
-- The fixed texts of the JSON replies of src/http_server.cpp.
use Prim.Native.Char.{code}
use Prim.Native.String.{String}
use bms_bridge.Base.{[], ◌∷◌, Bytes}

-- The bytes of an ASCII text.
abbrev pub codes : String → Bytes
codes String.[] = []
codes (String.◌∷◌ c s) = code c ∷ codes s

abbrev pub legacy_link : Bytes
legacy_link = codes "bluetooth"

abbrev pub not_in_config_text : Bytes
not_in_config_text = codes "{\"error\":\"battery not in config\"}"

abbrev pub no_live_data_text : Bytes
no_live_data_text = codes "{\"error\":\"no live data for this battery\"}"

abbrev pub no_settings_text : Bytes
no_settings_text = codes "{\"error\":\"settings not yet received\"}"

abbrev pub no_req_id_text : Bytes
no_req_id_text = codes "{\"error\":\"req_id required for ?next\"}"

abbrev pub unknown_req_id_text : Bytes
unknown_req_id_text = codes "{\"error\":\"req_id not found\"}"
