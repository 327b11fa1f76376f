-- ===== src/Types.antt =====
-- src/types/mod.rs: the result of a query or a get is freed as a whole.
use chroma_db_net.Prelude.{◌==◌, if◌then◌else◌}
use chroma_db_net.Memory.{Mem, pure, ◌>>=◌, ◌>>◌, take_rust, free_libc, as_query_result}
use chroma_db_net.Memory.Structs.{Ptr, null}
use chroma_db_net.Utils.{chroma_free_string_array}

unfoldable pub chroma_free_query_result : Ptr → Mem (Unit {0})
chroma_free_query_result result = if result == null then pure tt else do
  r ← take_rust as_query_result result
  chroma_free_string_array r.ids r.ids_count
  if r.distances == null then pure tt else free_libc r.distances
  chroma_free_string_array r.metadata_json r.metadata_count
  chroma_free_string_array r.documents r.documents_count
