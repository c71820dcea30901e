-- ===== src/Model/Binding.antt =====
-- internal/model/archive_binding.go: the identity and the address of an Archive, as a Workspace
-- records them; and `ShouldIndexRoleText` of internal/model/enums.go.
use aha.Prelude.{Bool, true, false, not, ◌&&◌, ◌||◌, Option, none, some, if◌then◌else◌, []}
use aha.Text.{Bytes, text_eq}
use aha.Text.Space.{trim_space, is_blank}

pub record ArchiveBinding : Type 0 where
  pub identity : Bytes
  pub address : Bytes

unfoldable pub new_archive_binding : Bytes → Bytes → Option ArchiveBinding
new_archive_binding identity address =
    let i = trim_space identity in
    let a = trim_space address in
    if text_eq i [] || text_eq a [] then none else some (record { identity = i; address = a })

unfoldable pub is_bound : ArchiveBinding → Bool
is_bound b = not (text_eq b.identity []) && not (text_eq b.address [])

-- A role that is none of the named ones is `other`.
pub data Role : Type 0 where
  user assistant branch_summary compaction_summary summary tool_result bash_execution : Role
  other : Bytes → Role

indexed_role : Role → Bool → Bool
indexed_role tool_result index_tool_output = index_tool_output
indexed_role bash_execution index_tool_output = index_tool_output
indexed_role (other _) index_tool_output = false
indexed_role _ index_tool_output = true

unfoldable pub should_index_role_text : Role → Bytes → Bool → Bool
unfolding indexed_role
should_index_role_text role text index_tool_output =
    if is_blank text then false else indexed_role role index_tool_output
