-- ===== src/Model/Identity/Valid.antt =====
-- The methods `Valid` of internal/model/identity.go.
use aha.Prelude.{Bool, not, ◌&&◌, ◌==◌, length, drop, []}
use aha.Text.{text_eq, has_prefix, contains_any}
use aha.Model.Identity.{
  SourceName, MachineId, SourceSessionId, SessionKey, EntryId, Sha256Hex, line_breaks, sk1,
  is_lower_hex,
}

unfoldable pub source_name : SourceName → Bool
source_name v = not (text_eq v.value [])

unfoldable pub machine_id : MachineId → Bool
machine_id v = not (text_eq v.value [])

unfoldable pub source_session_id : SourceSessionId → Bool
source_session_id v = not (text_eq v.value [])

unfoldable pub session_key : SessionKey → Bool
session_key v = (length v.value == 68) && has_prefix v.value sk1 && is_lower_hex (drop 4 v.value)

unfoldable pub entry_id : EntryId → Bool
entry_id v = not (text_eq v.value []) && not (contains_any v.value line_breaks)

unfoldable pub sha256_hex : Sha256Hex → Bool
sha256_hex v = (length v.value == 64) && is_lower_hex v.value
