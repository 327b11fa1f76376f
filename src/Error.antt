-- ===== src/Error.antt =====
-- src/error/mod.rs: the error record that a call leaves at `*error_out`.
pub mod Texts
pub mod Setting
pub mod Reported
use chroma_db_net.Prelude.{Option, none, some, ◌==◌, if◌then◌else◌, Text}
use chroma_db_net.Memory.{
  Mem, pure, ◌>>=◌, ◌>>◌, error, pointer, alloc, poke, take_rust, as_error, as_pointer, peek,
}
use chroma_db_net.Memory.Structs.{Ptr, null, ChromaErrorCode, ChromaError}
use chroma_db_net.Utils.{string_to_c_str, chroma_free_string}

abbrev pub optional_c_str : Option Text → Mem Ptr
optional_c_str (some d) = string_to_c_str d
optional_c_str none = pure null

-- `ChromaError::new`: the fields are evaluated in order.
unfoldable pub new : ChromaErrorCode → Text → Text → Option Text → Mem ChromaError
new code message source details = do
  m ← string_to_c_str message
  s ← string_to_c_str source
  d ← optional_c_str details
  pure (record { code = code; message = m; source = s; details = d })

unfoldable pub set_error : Ptr → ChromaErrorCode → Text → Text → Option Text → Mem (Unit {0})
unfolding new
set_error error_out code message source details = if error_out == null then pure tt else do
  e ← new code message source details
  boxed ← alloc (error e)
  poke error_out (pointer boxed)

unfoldable pub set_success : Ptr → Mem (Unit {0})
set_success error_out = if error_out == null then pure tt else poke error_out (pointer null)

-- The three strings of an error are freed like any other, each unless it is null.
unfoldable pub chroma_free_error : Ptr → Mem (Unit {0})
unfolding chroma_free_string
chroma_free_error e = if e == null then pure tt else do
  boxed ← take_rust as_error e
  chroma_free_string boxed.message
  chroma_free_string boxed.source
  chroma_free_string boxed.details
