-- ===== src/Collection/Management/Ends.antt =====
-- `chroma_get_collection`: what it sends to the frontend, and the handle that it makes.
use chroma_db_net.Prelude.{◌||◌, ◌≡◌, none, some, ◌==◌, Text, Result, ok, ascii}
use chroma_db_net.Memory.{Heap, Content, cell_of, rust, collection, alloc}
use chroma_db_net.Memory.Laws.{IsHeap}
use chroma_db_net.Memory.Structs.{not_found, Ptr, null, ChromaClient}
use chroma_db_net.Utils.{default_tenant, default_database}
use chroma_db_net.Error.Reported.{IsOut}
use chroma_db_net.Ffi.Replies.{
  Ends, succeeded, argument, validation, IsText, Cleared, Ends-bind, when-Reads, or_fail-Reads,
  some_or_fail-Reads, or_fail-Ends, succeed_lem,
}
use chroma_db_net.Ffi.Texts.{Readable, TextOr, read_text-Reads, read_text_or-Reads}
use chroma_db_net.Ffi.Handles.{IsClient, client-Reads, or-left, or-right, place-of}
use chroma_db_net.Ffi.Delivery.{Delivered, deliver_box}
use chroma_db_net.Chroma.{Chroma}
use chroma_db_net.Collection.Management.{chroma_get_collection}

module _ (C : Chroma) where
  open C use {State}

  -- The handle points to a new collection, and `*error_out` is cleared after that.
  abbrev pub HandleDelivered : Heap → Ptr → Ptr → Text → Text → C.Uuid → Heap → Type 0
  HandleDelivered h collection_handle error_out tenant database id h' =
      (k : Heap) × Delivered collection_handle
        (λ cell p.
          cell p
          ≡ some (
              cell_of rust (
                collection (record { id = C.uuid_text id; tenant = tenant; database = database }))))
        h k
      × Cleared error_out k h'

  -- The names that both handlers read.
  abbrev pub Names : Heap → Ptr → Ptr → Ptr → Text → Text → Text → C.DatabaseName → Type 0
  Names h name_ptr tenant_ptr database_ptr name tenant database db =
      IsText h name_ptr name
      × TextOr h tenant_ptr default_tenant tenant
      × TextOr h database_ptr default_database database
      × (C.database_name database ≡ some db)

  abbrev pub GetCollectionSent :
      Heap → ChromaClient → Ptr → Ptr → Ptr → State → Result C.Uuid → State → Type 0
  GetCollectionSent h c name_ptr tenant_ptr database_ptr s reply s' =
      (name : Text) × (tenant : Text) × (database : Text) × (db : C.DatabaseName)
      × (request : C.GetCollection) × Names h name_ptr tenant_ptr database_ptr name tenant database
          db
      × (C.new_get_collection tenant db name ≡ ok request)
      × (C.get_collection c.frontend request s ≡ (reply, s'))

  -- On a valid heap, with a null or live client, readable arguments and null or writable places
  -- behind every out pointer, `chroma_get_collection` does not fault and ends in one of three ways.
  -- An early error (invalid argument, validation or UUID) leaves the state as it was, and is
  -- reported at `error_out` unless that is null. Otherwise the frontend is called once: the request
  -- holds the name, and the tenant and the database or their defaults. If it answers with an error,
  -- not found is returned, and reported at `error_out` unless that is null; if not, the code is
  -- success, `collection_handle` points to a new handle with the identifier, tenant and database,
  -- where no block was before, and `*error_out` is null.
  pub get_collection-Ends :
      (h : Heap) (s : State) (c : ChromaClient)
      (handle name_ptr tenant_ptr database_ptr collection_handle error_out : Ptr)
      → IsHeap h
      → IsOut h error_out
      → IsOut h collection_handle
      → IsClient h handle c
      → Readable h name_ptr
      → Readable h tenant_ptr
      → Readable h database_ptr
      → Ends error_out
          (ascii "chroma_get_collection")
          h
          not_found
          s
          (GetCollectionSent h c name_ptr tenant_ptr database_ptr s)
          (λ id h'.
            (tenant : Text) × (database : Text) × TextOr h tenant_ptr default_tenant tenant
            × TextOr h database_ptr default_database database
            × HandleDelivered h collection_handle error_out tenant database id h')
          (chroma_get_collection C handle name_ptr tenant_ptr database_ptr collection_handle
            error_out h s)
  unfolding chroma_get_collection alloc
  get_collection-Ends h s c handle name_ptr tenant_ptr database_ptr collection_handle error_out heap
        is_out is_result cl rn rt rd =
      Ends-bind _
        (when-Reads func heap is_out s
          (handle == null || name_ptr == null || collection_handle == null) _ none argument)
        λ _ checked. Ends-bind _ (read_text-Reads func heap is_out s _ rn) λ name is_name.
          Ends-bind _ (read_text_or-Reads func heap is_out s _ _ rt) λ tenant is_tenant.
            Ends-bind _ (read_text_or-Reads func heap is_out s _ _ rd) λ database is_database.
              Ends-bind _
                (some_or_fail-Reads func heap is_out s _ (C.database_name database) validation)
                λ db named.
                  Ends-bind _
                    (client-Reads func s cl
                      (or-left (handle == null) _ (or-left _ (collection_handle == null) checked)))
                    λ client is_c.
                      Ends-bind _
                        (or_fail-Reads func heap is_out s _ _ (C.new_get_collection tenant db name)
                          validation)
                        λ request new.
                          or_fail-Ends func heap is_out
                            (C.get_collection client.frontend request s).1 _ _ _ _
                            (
                              name,
                              tenant,
                              database,
                              db,
                              request,
                              (is_name, is_tenant, is_database, named),
                              new,
                              rw is_c,
                            )
                            λ id sent.
                              let made : Content = collection (record {
                                id = C.uuid_text id;
                                tenant = tenant;
                                database = database;
                              }) in
                              let (o, content, at) =
                                place-of is_result
                                  (or-right (handle == null || name_ptr == null) _ checked) in
                              let (k, eq, delivered, is_out') = deliver_box heap at is_out made in
                              let (h', eq', clear) =
                                succeed_lem (C.get_collection client.frontend request s).1
                                  is_out' in
                              rw (eq, eq')
                                (succeeded id sent
                                  (tenant, database, is_tenant, is_database, (k, delivered, clear)))
    where
      func : Text
      func = ascii "chroma_get_collection"
