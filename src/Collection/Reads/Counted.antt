-- ===== src/Collection/Reads/Counted.antt =====
-- `chroma_count` at arguments that are in order: the count is handed over.
use chroma_db_net.Prelude.{ℕ, ◌≡◌, ◌≢◌, refl, some, ==_false, ok}
use chroma_db_net.Memory.{
  Heap, Owner, Content, cell_of, client, as_client, collection, as_collection, word, write,
}
use chroma_db_net.Memory.Laws.{peek_lem, poke_lem}
use chroma_db_net.Memory.Structs.{Ptr, null, ChromaClient, ChromaCollection, success}
use chroma_db_net.Error.Reported.{IsOut}
use chroma_db_net.Ffi.{return, or_fail}
use chroma_db_net.Ffi.Replies.{Cleared, succeed_lem}
use chroma_db_net.Ffi.Handles.{IsOut-write}
use chroma_db_net.Chroma.{Chroma}
use chroma_db_net.Collection.Arguments.{parse_collection_id}
use chroma_db_net.Collection.Reads.{chroma_count}

module _ (C : Chroma) where
  -- With live handles, a place at `result` and a null or writable `error_out`: if the identifier of
  -- the collection parses, the request is made and the frontend answers with a count, then
  -- `chroma_count` returns success with the frontend's state, the count stands at `result`, and
  -- nothing else changed but `*error_out`, to null.
  pub count_succeeds :
      {h : Heap} {handle collection_handle result error_out : Ptr} {o o' ow : Owner}
      {c : ChromaClient} {col : ChromaCollection} {old : Content} (s s' : C.State) (id : C.Uuid)
      (request : C.Count) (n : ℕ)
      → IsOut h error_out
      → handle ≢ null
      → collection_handle ≢ null
      → result ≢ null
      → h.cell handle ≡ some (cell_of o (client c))
      → h.cell collection_handle ≡ some (cell_of o' (collection col))
      → h.cell result ≡ some (cell_of ow old)
      → C.parse_uuid col.id ≡ ok id
      → C.new_count col.tenant col.database id ≡ ok request
      → C.count c.frontend request s ≡ (ok n, s')
      → (h' : Heap) × (chroma_count C handle collection_handle result error_out h s
          ≡ return success h' s')
        × Cleared error_out (write h result (some (cell_of ow (word n)))) h'
  unfolding chroma_count or_fail parse_collection_id
  count_succeeds {h} {handle} {collection_handle} {result} {ow} s s' id request n is_out ne ne'
        result_ne at at' result_at is_id made sent =
      let (h', eq, clear) = succeed_lem s' (IsOut-write result (cell_of ow (word n)) is_out) in
      (
        h',
        rw
            (
              ==_false handle null ne,
              ==_false collection_handle null ne',
              ==_false result null result_ne,
              peek_lem as_client handle h refl at,
              peek_lem as_collection collection_handle h refl at',
              is_id,
              made,
              sent,
              poke_lem result (word n) h result_at,
            )
            eq,
        clear,
      )
