-- ===== src/Collection/Management/Created.antt =====
-- `chroma_create_collection` at arguments that are in order: it hands over a handle.
use chroma_db_net.Prelude.{◌≡◌, ◌≢◌, refl, Bool, Option, some, ==_false, Text, ok, ascii}
use chroma_db_net.Memory.{Heap, Owner, Content, cell_of, client, as_client, collection, alloc}
use chroma_db_net.Memory.Laws.{IsHeap, peek_lem}
use chroma_db_net.Memory.Structs.{Ptr, null, ChromaClient, success}
use chroma_db_net.Error.Reported.{IsOut}
use chroma_db_net.Ffi.{value, return, or_fail, some_or_fail}
use chroma_db_net.Ffi.Replies.{succeed_lem}
use chroma_db_net.Ffi.Accepted.{IsText-ne, read_text_lem, read_text_or_lem}
use chroma_db_net.Ffi.Delivery.{deliver_box}
use chroma_db_net.Chroma.{Chroma, KnnIndex}
use chroma_db_net.Collection.Management.{
  read_configuration, read_collection_metadata, convert_configuration, chroma_create_collection,
}
use chroma_db_net.Collection.Management.Create.{Json, no_json, json, Converted, default, converted}
use chroma_db_net.Collection.Management.Ends.{Names, HandleDelivered}

module _ (C : Chroma) (out : Ptr) (func_name : Text) {h : Heap} (s : C.State) where
  read_configuration_lem :
      {p : Ptr} {config : Option C.Configuration}
      → Json h p C.parse_configuration config
      → read_configuration C out func_name p h s ≡ value config h s
  unfolding read_configuration or_fail
  read_configuration_lem (no_json e) = rw e refl
  read_configuration_lem {p} (json is_t parsed) =
      rw
        (
          ==_false p null (IsText-ne is_t),
          read_text_lem out func_name s (ascii "Invalid configuration JSON") is_t,
          parsed,
        )
        refl

  read_collection_metadata_lem :
      {p : Ptr} {metadata : Option C.Metadata}
      → Json h p C.parse_metadata metadata
      → read_collection_metadata C out func_name p h s ≡ value metadata h s
  unfolding read_collection_metadata or_fail
  read_collection_metadata_lem (no_json e) = rw e refl
  read_collection_metadata_lem {p} (json is_t parsed) =
      rw
        (
          ==_false p null (IsText-ne is_t),
          read_text_lem out func_name s (ascii "Invalid metadata JSON") is_t,
          parsed,
        )
        refl

  convert_configuration_lem :
      {index : KnnIndex} {config : Option C.Configuration}
      {internal_config : Option C.InternalConfiguration}
      → Converted C index config internal_config
      → convert_configuration C out func_name index config h s ≡ value internal_config h s
  unfolding convert_configuration or_fail
  convert_configuration_lem default = refl
  convert_configuration_lem (converted e) = rw e refl

module _ (C : Chroma) where
  -- On a valid heap, with a live client, a name, a tenant and a database or null, a configuration
  -- and metadata that are null or parse, a place at `collection_handle` and a null or writable
  -- `error_out`: if the name of the database is accepted, the configuration converts, the request
  -- is made and the frontend creates the collection, then `chroma_create_collection` returns
  -- success with the frontend's state, `collection_handle` points to a new handle with the
  -- identifier, tenant and database, and `*error_out` is null.
  pub create_collection_succeeds :
      {h : Heap} {handle name_ptr tenant_ptr database_ptr collection_handle error_out : Ptr}
      {config_ptr metadata_ptr : Ptr} {o ow : Owner} {c : ChromaClient} {old : Content}
      {name tenant database : Text} (s s' : C.State) (get_or_create : Bool)
      (config : Option C.Configuration) (metadata : Option C.Metadata)
      (internal_config : Option C.InternalConfiguration) (db : C.DatabaseName)
      (request : C.CreateCollection) (id : C.Uuid)
      → IsHeap h
      → IsOut h error_out
      → handle ≢ null
      → h.cell handle ≡ some (cell_of o (client c))
      → collection_handle ≢ null
      → h.cell collection_handle ≡ some (cell_of ow old)
      → Names C h name_ptr tenant_ptr database_ptr name tenant database db
      → Json h config_ptr C.parse_configuration config
      → Json h metadata_ptr C.parse_metadata metadata
      → Converted C (C.default_knn_index c.frontend) config internal_config
      → C.new_create_collection tenant db name metadata internal_config get_or_create ≡ ok request
      → C.create_collection c.frontend request s ≡ (ok id, s')
      → (h' : Heap) × (chroma_create_collection C handle name_ptr config_ptr metadata_ptr
            get_or_create tenant_ptr database_ptr collection_handle error_out h s
          ≡ return success h' s')
        × HandleDelivered C h collection_handle error_out tenant database id h'
  unfolding chroma_create_collection or_fail some_or_fail alloc
  create_collection_succeeds {h} {handle} {name_ptr} {collection_handle} {error_out} {ow} {c} {old}
        {tenant} {database} s s' get_or_create config metadata internal_config db request id heap
        is_out ne at result_ne result_at (is_name, is_tenant, is_database, named) is_config
        is_metadata is_converted made sent =
      let func = ascii "chroma_create_collection" in
      let (k, poked, delivered, out) =
        deliver_box heap {result = collection_handle} {o = ow} {c = old} result_at is_out
          (collection (record { id = C.uuid_text id; tenant = tenant; database = database })) in
      let (h', eq, clear) = succeed_lem s' out in
      (
        h',
        rw
            (
              ==_false handle null ne,
              ==_false name_ptr null (IsText-ne is_name),
              ==_false collection_handle null result_ne,
              read_text_lem error_out func s _ is_name,
              read_text_or_lem error_out func s _ _ is_tenant,
              read_text_or_lem error_out func s _ _ is_database,
              named,
              read_configuration_lem C error_out func s is_config,
              read_collection_metadata_lem C error_out func s is_metadata,
              peek_lem as_client handle h refl at,
              convert_configuration_lem C error_out func s is_converted,
              made,
              sent,
              poked,
            )
            eq,
        (k, delivered, clear),
      )
