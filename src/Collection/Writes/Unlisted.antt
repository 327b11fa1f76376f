-- ===== src/Collection/Writes/Unlisted.antt =====
-- `chroma_delete` with an array of no ids and no filter.
use chroma_db_net.Prelude.{◌≡◌, ◌≢◌, refl, none, some, ==_false, ok}
use chroma_db_net.Memory.{Heap, Owner, cell_of, client, as_client, collection, as_collection}
use chroma_db_net.Memory.Laws.{peek_lem}
use chroma_db_net.Memory.Structs.{Ptr, null, ChromaClient, ChromaCollection, success}
use chroma_db_net.Error.Reported.{IsOut}
use chroma_db_net.Ffi.{return, or_fail, read_optional_text}
use chroma_db_net.Ffi.Replies.{Cleared, succeed_lem}
use chroma_db_net.Chroma.{Chroma}
use chroma_db_net.Collection.Arguments.{read_optional_ids, read_where, parse_collection_id}
use chroma_db_net.Collection.Writes.{chroma_delete}

module _ (C : Chroma) where
  -- With live handles, a null or writable `error_out`, an id array that is not null with the count
  -- zero, and null filters: if the identifier of the collection parses, a request without ids and
  -- without a filter is made and the frontend deletes, then `chroma_delete` returns success with
  -- the frontend's state, and only `*error_out` changed, to null.
  pub delete_unlisted :
      {h : Heap} {handle collection_handle ids error_out : Ptr} {o o' : Owner} {c : ChromaClient}
      {col : ChromaCollection} (s s' : C.State) (id : C.Uuid) (request : C.Delete)
      → IsOut h error_out
      → handle ≢ null
      → collection_handle ≢ null
      → h.cell handle ≡ some (cell_of o (client c))
      → h.cell collection_handle ≡ some (cell_of o' (collection col))
      → ids ≢ null
      → C.parse_uuid col.id ≡ ok id
      → C.new_delete col.tenant col.database id none none ≡ ok request
      → C.delete c.frontend request s ≡ (ok tt, s')
      → (h' : Heap) × (chroma_delete C handle collection_handle ids 0 null null error_out h s
          ≡ return success h' s')
        × Cleared error_out h h'
  unfolding chroma_delete or_fail read_optional_text read_optional_ids read_where
      parse_collection_id
  delete_unlisted {h} {handle} {collection_handle} {ids} s s' id request is_out ne ne' at at' ids_ne
        is_id made sent =
      let (h', eq, clear) = succeed_lem s' is_out in
      (
        h',
        rw
            (
              ==_false handle null ne,
              ==_false collection_handle null ne',
              ==_false ids null ids_ne,
              peek_lem as_client handle h refl at,
              peek_lem as_collection collection_handle h refl at',
              is_id,
              made,
              sent,
            )
            eq,
        clear,
      )
