-- ===== src/Collection/Management.antt =====
-- src/collection/types.rs and src/collection/management.rs: making, finding and dropping the
-- handle of a collection.
pub mod Ends
pub mod Create
pub mod Lifetime
pub mod Accepted
pub mod Created
use chroma_db_net.Prelude.{Bool, ◌||◌, Option, none, some, [], ◌==◌, if◌then◌else◌, Text, ascii}
use chroma_db_net.Memory.{
  alloc, peek, poke, take_rust, as_client, as_collection, collection, pointer,
}
use chroma_db_net.Memory.Structs.{
  Ptr, null, ChromaCollection, invalid_argument, internal_error, validation_error, not_found,
}
use chroma_db_net.Ffi.{
  Ffi, pure, ◌>>=◌, ◌>>◌, mem, call, fail, succeed, or_fail, some_or_fail, when, read_text,
  read_optional_text, read_text_or,
}
use chroma_db_net.Chroma.{Chroma, KnnIndex}
use chroma_db_net.Utils.{default_tenant, default_database}

unfoldable pub chroma_destroy_collection : {S : Type 0} → Ptr → Ptr → Ffi S (Unit {0})
chroma_destroy_collection collection_handle error_out = do
  let func_name = ascii "chroma_destroy_collection"
  when (collection_handle == null)
      (fail error_out func_name invalid_argument (ascii "Collection handle pointer is null") none)
  mem (take_rust as_collection collection_handle)
  succeed error_out

-- The message for the first of the three required pointers that is null.
unfoldable pub missing_argument : Ptr → Ptr → Text
missing_argument client_handle name_ptr =
    if client_handle == null
    then ascii "Client handle pointer is null"
    else if name_ptr == null
    then ascii "Collection name pointer is null"
    else ascii "Collection handle output pointer is null"

module _ (C : Chroma) where
  -- The configuration, if there is one, parsed.
  unfoldable pub read_configuration : Ptr → Text → Ptr → Ffi C.State (Option C.Configuration)
  read_configuration error_out func_name config_json_ptr =
      if config_json_ptr == null then pure none else do
        json ← read_text error_out func_name (ascii "Invalid configuration JSON") config_json_ptr
        config ←
            or_fail error_out func_name validation_error
              (ascii "Failed to parse configuration JSON") [] (C.parse_configuration json)
        pure (some config)

  unfoldable pub read_collection_metadata : Ptr → Text → Ptr → Ffi C.State (Option C.Metadata)
  read_collection_metadata error_out func_name metadata_json_ptr =
      if metadata_json_ptr == null then pure none else do
        json ← read_text error_out func_name (ascii "Invalid metadata JSON") metadata_json_ptr
        metadata ←
            or_fail error_out func_name validation_error (ascii "Failed to parse metadata JSON") []
              (C.parse_metadata json)
        pure (some metadata)

  -- The configuration in the frontend's own form.
  unfoldable pub convert_configuration :
      Ptr → Text → KnnIndex → Option C.Configuration → Ffi C.State (Option C.InternalConfiguration)
  convert_configuration error_out func_name index none = pure none
  convert_configuration error_out func_name index (some c) = do
    config ←
        or_fail error_out func_name validation_error (ascii "Invalid collection configuration")
          (ascii "Configuration validation error: ") (C.try_from_config c index)
    pure (some config)

  unfoldable pub chroma_create_collection :
      Ptr → Ptr → Ptr → Ptr → Bool → Ptr → Ptr → Ptr → Ptr → Ffi C.State (Unit {0})
  chroma_create_collection client_handle name_ptr config_json_ptr metadata_json_ptr get_or_create
        tenant_ptr database_ptr collection_handle error_out =
      do
        let func_name = ascii "chroma_create_collection"
        when (client_handle == null || name_ptr == null || collection_handle == null) (
            fail error_out func_name invalid_argument (missing_argument client_handle name_ptr)
              none)
        name ← read_text error_out func_name (ascii "Invalid collection name") name_ptr
        tenant ←
            read_text_or error_out func_name default_tenant (ascii "Invalid tenant name") tenant_ptr
        database ←
            read_text_or error_out func_name default_database (ascii "Invalid database name")
              database_ptr
        database_name ←
            some_or_fail error_out func_name validation_error
              (ascii "Invalid database name (must be at least 3 characters)")
              (C.database_name database)
        configuration_json ← read_configuration error_out func_name config_json_ptr
        metadata ← read_collection_metadata error_out func_name metadata_json_ptr
        client ← mem (peek as_client client_handle)
        configuration ←
            convert_configuration error_out func_name (C.default_knn_index client.frontend)
              configuration_json
        request ←
            or_fail error_out func_name validation_error
              (ascii "Failed to create collection request") (ascii "Validation error: ")
              (C.new_create_collection tenant database_name name metadata configuration
                get_or_create)
        reply ← call (C.create_collection client.frontend request)
        id ←
            or_fail error_out func_name internal_error (ascii "Failed to create collection")
              (ascii "Error: ") reply
        handle ← mem (
            alloc
              (collection (record { id = C.uuid_text id; tenant = tenant; database = database })))
        mem (poke collection_handle (pointer handle))
        succeed error_out

  unfoldable pub chroma_get_collection : Ptr → Ptr → Ptr → Ptr → Ptr → Ptr → Ffi C.State (Unit {0})
  chroma_get_collection client_handle name_ptr tenant_ptr database_ptr collection_handle error_out =
      do
        let func_name = ascii "chroma_get_collection"
        when (client_handle == null || name_ptr == null || collection_handle == null) (
            fail error_out func_name invalid_argument (missing_argument client_handle name_ptr)
              none)
        name ← read_text error_out func_name (ascii "Invalid collection name") name_ptr
        tenant ←
            read_text_or error_out func_name default_tenant (ascii "Invalid tenant name") tenant_ptr
        database ←
            read_text_or error_out func_name default_database (ascii "Invalid database name")
              database_ptr
        database_name ←
            some_or_fail error_out func_name validation_error
              (ascii "Invalid database name (must be at least 3 characters)")
              (C.database_name database)
        client ← mem (peek as_client client_handle)
        request ←
            or_fail error_out func_name validation_error
              (ascii "Failed to create get collection request") (ascii "Validation error: ")
              (C.new_get_collection tenant database_name name)
        reply ← call (C.get_collection client.frontend request)
        id ←
            or_fail error_out func_name not_found (ascii "Collection not found") (ascii "Error: ")
              reply
        handle ← mem (
            alloc
              (collection (record { id = C.uuid_text id; tenant = tenant; database = database })))
        mem (poke collection_handle (pointer handle))
        succeed error_out
