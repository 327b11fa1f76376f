-- ===== src/Collection/Management/Accepted.antt =====
-- `chroma_get_collection` at arguments that are in order: it hands over a handle.
use chroma_db_net.Prelude.{◌≡◌, ◌≢◌, refl, some, ==_false, Text, ok, ascii}
use chroma_db_net.Memory.{Heap, Owner, Content, cell_of, client, as_client, collection, alloc}
use chroma_db_net.Memory.Laws.{IsHeap, peek_lem}
use chroma_db_net.Memory.Structs.{Ptr, null, ChromaClient, success}
use chroma_db_net.Error.Reported.{IsOut}
use chroma_db_net.Ffi.{return, or_fail, some_or_fail}
use chroma_db_net.Ffi.Replies.{succeed_lem}
use chroma_db_net.Ffi.Accepted.{IsText-ne, read_text_lem, read_text_or_lem}
use chroma_db_net.Ffi.Delivery.{deliver_box}
use chroma_db_net.Chroma.{Chroma}
use chroma_db_net.Collection.Management.{chroma_get_collection}
use chroma_db_net.Collection.Management.Ends.{Names, HandleDelivered}

module _ (C : Chroma) where
  -- On a valid heap, with a live client, a name, a tenant and a database or null, a place at
  -- `collection_handle` and a null or writable `error_out`: if the name of the database is
  -- accepted, the request is made and the frontend finds the collection, then
  -- `chroma_get_collection` returns success with the frontend's state, `collection_handle` points
  -- to a new handle with the identifier, tenant and database, and `*error_out` is null.
  pub get_collection_succeeds :
      {h : Heap} {handle name_ptr tenant_ptr database_ptr collection_handle error_out : Ptr}
      {o ow : Owner} {c : ChromaClient} {old : Content} {name tenant database : Text}
      (s s' : C.State) (db : C.DatabaseName) (request : C.GetCollection) (id : C.Uuid)
      → IsHeap h
      → IsOut h error_out
      → handle ≢ null
      → h.cell handle ≡ some (cell_of o (client c))
      → collection_handle ≢ null
      → h.cell collection_handle ≡ some (cell_of ow old)
      → Names C h name_ptr tenant_ptr database_ptr name tenant database db
      → C.new_get_collection tenant db name ≡ ok request
      → C.get_collection c.frontend request s ≡ (ok id, s')
      → (h' : Heap) × (chroma_get_collection C handle name_ptr tenant_ptr database_ptr
            collection_handle error_out h s
          ≡ return success h' s')
        × HandleDelivered C h collection_handle error_out tenant database id h'
  unfolding chroma_get_collection or_fail some_or_fail alloc
  get_collection_succeeds {h} {handle} {name_ptr} {collection_handle} {error_out} {ow} {old}
        {tenant} {database} s s' db request id heap is_out ne at result_ne result_at
        (is_name, is_tenant, is_database, named) made sent =
      let func = ascii "chroma_get_collection" in
      let (k, poked, delivered, out) =
        deliver_box heap {result = collection_handle} {o = ow} {c = old} result_at is_out
          (collection (record { id = C.uuid_text id; tenant = tenant; database = database })) in
      let (h', eq, clear) = succeed_lem s' out in
      (
        h',
        rw
            (
              ==_false handle null ne,
              ==_false name_ptr null (IsText-ne is_name),
              ==_false collection_handle null result_ne,
              read_text_lem error_out func s _ is_name,
              read_text_or_lem error_out func s _ _ is_tenant,
              read_text_or_lem error_out func s _ _ is_database,
              named,
              peek_lem as_client handle h refl at,
              made,
              sent,
              poked,
            )
            eq,
        (k, delivered, clear),
      )
