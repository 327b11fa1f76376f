-- ===== src/Client.antt =====
-- src/client/mod.rs: the handlers of a client and its databases.
pub mod Create
pub mod Databases
pub mod Accepted
pub mod Lifetime
use chroma_db_net.Prelude.{
  ℕ, ◌%◌, ◌^◌, ◌||◌, Option, none, some, [], ◌==◌, if◌then◌else◌, Text, ascii,
}
use chroma_db_net.Memory.{peek, poke, take_rust, as_client, word, pointer}
use chroma_db_net.Memory.Structs.{
  Ptr, null, ChromaClient, invalid_argument, internal_error, validation_error, not_found,
}
use chroma_db_net.Ffi.{
  Ffi, pure, ◌>>=◌, ◌>>◌, mem, call, fail, succeed, or_fail, some_or_fail, when, read_text,
  read_text_or,
}
use chroma_db_net.Chroma.{Chroma}
use chroma_db_net.Utils.{string_to_c_str, default_tenant}

module _ (C : Chroma) where
  unfoldable pub chroma_destroy_client : Ptr → Ptr → Ffi C.State (Unit {0})
  chroma_destroy_client client_handle error_out = do
    let func_name = ascii "chroma_destroy_client"
    when (client_handle == null)
        (fail error_out func_name invalid_argument (ascii "Client handle pointer is null") none)
    client ← mem (take_rust as_client client_handle)
    call (λ s. (tt, C.drop_client client s))
    succeed error_out

  unfoldable pub chroma_heartbeat : Ptr → Ptr → Ptr → Ffi C.State (Unit {0})
  chroma_heartbeat client_handle result error_out = do
    let func_name = ascii "chroma_heartbeat"
    when (client_handle == null || result == null) (
        fail error_out func_name invalid_argument
          (if client_handle == null
            then ascii "Client handle pointer is null"
            else ascii "Result pointer is null")
          none)
    now ← call C.now
    nanos ← or_fail error_out func_name internal_error (ascii "Failed to get system time") [] now
    mem (poke result (word (nanos % 2 ^ 64)))
    succeed error_out

  unfoldable pub chroma_create_database : Ptr → Ptr → Ptr → Ptr → Ffi C.State (Unit {0})
  chroma_create_database client_handle name_ptr tenant_ptr error_out = do
    let func_name = ascii "chroma_create_database"
    when (client_handle == null || name_ptr == null) (
        fail error_out func_name invalid_argument
          (if client_handle == null
            then ascii "Client handle pointer is null"
            else ascii "Database name pointer is null")
          none)
    name ← read_text error_out func_name (ascii "Invalid database name") name_ptr
    tenant ←
        read_text_or error_out func_name default_tenant (ascii "Invalid tenant name") tenant_ptr
    client ← mem (peek as_client client_handle)
    db_name ←
        some_or_fail error_out func_name validation_error
          (ascii "Invalid database name (must be at least 3 characters)") (C.database_name name)
    request ←
        or_fail error_out func_name validation_error (ascii "Failed to create database request")
          (ascii "Validation error: ") (C.new_create_database tenant db_name)
    reply ← call (C.create_database client.frontend request)
    or_fail error_out func_name internal_error (ascii "Failed to create database") (ascii "Error: ")
        reply
    succeed error_out

  unfoldable pub chroma_get_database : Ptr → Ptr → Ptr → Ptr → Ptr → Ffi C.State (Unit {0})
  chroma_get_database client_handle name_ptr tenant_ptr id_result error_out = do
    let func_name = ascii "chroma_get_database"
    when (client_handle == null || name_ptr == null || id_result == null) (
        fail error_out func_name invalid_argument
          (if client_handle == null
            then ascii "Client handle pointer is null"
            else if name_ptr == null
            then ascii "Database name pointer is null"
            else ascii "ID result pointer is null")
          none)
    name ← read_text error_out func_name (ascii "Invalid database name") name_ptr
    tenant ←
        read_text_or error_out func_name default_tenant (ascii "Invalid tenant name") tenant_ptr
    client ← mem (peek as_client client_handle)
    db_name ←
        some_or_fail error_out func_name validation_error
          (ascii "Invalid database name (must be at least 3 characters)") (C.database_name name)
    request ←
        or_fail error_out func_name validation_error (ascii "Failed to create get database request")
          (ascii "Validation error: ") (C.new_get_database tenant db_name)
    reply ← call (C.get_database client.frontend request)
    id ← or_fail error_out func_name not_found (ascii "Database not found") (ascii "Error: ") reply
    id_str ← mem (string_to_c_str (C.uuid_text id))
    mem (poke id_result (pointer id_str))
    succeed error_out

  -- The name is not checked here: it goes to the request as it is.
  unfoldable pub chroma_delete_database : Ptr → Ptr → Ptr → Ptr → Ffi C.State (Unit {0})
  chroma_delete_database client_handle name_ptr tenant_ptr error_out = do
    let func_name = ascii "chroma_delete_database"
    when (client_handle == null || name_ptr == null) (
        fail error_out func_name invalid_argument
          (if client_handle == null
            then ascii "Client handle pointer is null"
            else ascii "Database name pointer is null")
          none)
    name ← read_text error_out func_name (ascii "Invalid database name") name_ptr
    tenant ←
        read_text_or error_out func_name default_tenant (ascii "Invalid tenant name") tenant_ptr
    client ← mem (peek as_client client_handle)
    request ←
        or_fail error_out func_name validation_error
          (ascii "Failed to create delete database request") (ascii "Validation error: ")
          (C.new_delete_database tenant name)
    reply ← call (C.delete_database client.frontend request)
    or_fail error_out func_name internal_error (ascii "Failed to delete database") (ascii "Error: ")
        reply
    succeed error_out
