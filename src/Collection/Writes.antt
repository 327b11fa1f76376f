-- ===== src/Collection/Writes.antt =====
-- `chroma_add`, `chroma_update`, `chroma_upsert` and `chroma_delete` of
-- src/collection/operations.rs.
pub mod Ends
pub mod Update
pub mod Upsert
pub mod Delete
pub mod Accepted
pub mod Unlisted
pub mod Updated
pub mod Deleted
use chroma_db_net.Prelude.{
  ℕ, ◌||◌, ◌&&◌, Bool, Option, none, some, ◌==◌, if◌then◌else◌, Text, ascii,
}
use chroma_db_net.Memory.{peek, as_client, as_collection}
use chroma_db_net.Memory.Structs.{Ptr, null, invalid_argument, internal_error, validation_error}
use chroma_db_net.Ffi.{Ffi, pure, ◌>>=◌, ◌>>◌, mem, call, fail, succeed, or_fail, when}
use chroma_db_net.Chroma.{Chroma}
use chroma_db_net.Collection.Arguments.{
  read_ids, read_optional_ids, read_embeddings, read_optional_embeddings, read_metadatas,
  read_documents, parse_collection_id, read_where,
}

-- The message for the first required argument that is missing.
unfoldable pub missing_ids : Ptr → Ptr → Ptr → Text
missing_ids client_handle collection_handle ids =
    if client_handle == null
    then ascii "Client handle pointer is null"
    else if collection_handle == null
    then ascii "Collection handle pointer is null"
    else if ids == null
    then ascii "IDs pointer is null"
    else ascii "IDs count is zero"

module _ (C : Chroma) where
  unfoldable pub chroma_add :
      Ptr → Ptr → Ptr → ℕ → Ptr → ℕ → Ptr → Ptr → Ptr → Ffi C.State (Unit {0})
  chroma_add client_handle collection_handle ids ids_count embeddings embedding_dim metadatas_json
        documents error_out =
      do
        let func_name = ascii "chroma_add"
        when (client_handle == null || collection_handle == null || ids == null || ids_count == 0) (
            fail error_out func_name invalid_argument
              (missing_ids client_handle collection_handle ids) none)
        client ← mem (peek as_client client_handle)
        collection ← mem (peek as_collection collection_handle)
        ids_vec ← read_ids error_out func_name ids ids_count
        embeddings_vec ← read_embeddings error_out func_name embeddings embedding_dim ids_count
        metadatas_vec ← read_metadatas error_out func_name C.parse_metadata metadatas_json ids_count
        documents_vec ← read_documents error_out func_name documents ids_count
        collection_id ← parse_collection_id C error_out func_name collection
        request ←
            or_fail error_out func_name validation_error (ascii "Failed to create add request")
              (ascii "Validation error: ")
              (C.new_add collection.tenant collection.database collection_id ids_vec embeddings_vec
                documents_vec metadatas_vec)
        reply ← call (C.add client.frontend request)
        or_fail error_out func_name internal_error (ascii "Failed to add documents")
            (ascii "Error: ") reply
        succeed error_out

  unfoldable pub chroma_update :
      Ptr → Ptr → Ptr → ℕ → Ptr → ℕ → Ptr → Ptr → Ptr → Ffi C.State (Unit {0})
  chroma_update client_handle collection_handle ids ids_count embeddings embedding_dim
        metadatas_json documents error_out =
      do
        let func_name = ascii "chroma_update"
        when (client_handle == null || collection_handle == null || ids == null || ids_count == 0) (
            fail error_out func_name invalid_argument
              (missing_ids client_handle collection_handle ids) none)
        client ← mem (peek as_client client_handle)
        collection ← mem (peek as_collection collection_handle)
        ids_vec ← read_ids error_out func_name ids ids_count
        embeddings_vec ←
            read_optional_embeddings error_out func_name embeddings embedding_dim ids_count
        metadatas_vec ←
            read_metadatas error_out func_name C.parse_update_metadata metadatas_json ids_count
        documents_vec ← read_documents error_out func_name documents ids_count
        collection_id ← parse_collection_id C error_out func_name collection
        request ←
            or_fail error_out func_name validation_error (ascii "Failed to create update request")
              (ascii "Validation error: ")
              (C.new_update collection.tenant collection.database collection_id ids_vec
                embeddings_vec documents_vec metadatas_vec)
        reply ← call (C.update client.frontend request)
        or_fail error_out func_name internal_error (ascii "Failed to update documents")
            (ascii "Error: ") reply
        succeed error_out

  unfoldable pub chroma_upsert :
      Ptr → Ptr → Ptr → ℕ → Ptr → ℕ → Ptr → Ptr → Ptr → Ffi C.State (Unit {0})
  chroma_upsert client_handle collection_handle ids ids_count embeddings embedding_dim
        metadatas_json documents error_out =
      do
        let func_name = ascii "chroma_upsert"
        when (client_handle == null || collection_handle == null || ids == null || ids_count == 0) (
            fail error_out func_name invalid_argument
              (missing_ids client_handle collection_handle ids) none)
        client ← mem (peek as_client client_handle)
        collection ← mem (peek as_collection collection_handle)
        ids_vec ← read_ids error_out func_name ids ids_count
        embeddings_vec ← read_embeddings error_out func_name embeddings embedding_dim ids_count
        metadatas_vec ←
            read_metadatas error_out func_name C.parse_update_metadata metadatas_json ids_count
        documents_vec ← read_documents error_out func_name documents ids_count
        collection_id ← parse_collection_id C error_out func_name collection
        request ←
            or_fail error_out func_name validation_error (ascii "Failed to create upsert request")
              (ascii "Validation error: ")
              (C.new_upsert collection.tenant collection.database collection_id ids_vec
                embeddings_vec documents_vec metadatas_vec)
        reply ← call (C.upsert client.frontend request)
        or_fail error_out func_name internal_error (ascii "Failed to upsert documents")
            (ascii "Error: ") reply
        succeed error_out

  unfoldable pub chroma_delete : Ptr → Ptr → Ptr → ℕ → Ptr → Ptr → Ptr → Ffi C.State (Unit {0})
  chroma_delete client_handle collection_handle ids ids_count where_filter_json
        where_document_filter error_out =
      do
        let func_name = ascii "chroma_delete"
        when (client_handle == null || collection_handle == null) (
            fail error_out func_name invalid_argument
              (if client_handle == null
                then ascii "Client handle pointer is null"
                else ascii "Collection handle pointer is null")
              none)
        when (ids == null && where_filter_json == null && where_document_filter == null) (
            fail error_out func_name invalid_argument
              (ascii "Either document IDs or filter criteria must be specified") none)
        client ← mem (peek as_client client_handle)
        collection ← mem (peek as_collection collection_handle)
        ids_vec ← read_optional_ids error_out func_name ids ids_count
        where_filter ← read_where C error_out func_name where_filter_json where_document_filter
        collection_id ← parse_collection_id C error_out func_name collection
        request ←
            or_fail error_out func_name validation_error (ascii "Failed to create delete request")
              (ascii "Validation error: ")
              (C.new_delete collection.tenant collection.database collection_id ids_vec
                where_filter)
        reply ← call (C.delete client.frontend request)
        or_fail error_out func_name internal_error (ascii "Failed to delete documents")
            (ascii "Error: ") reply
        succeed error_out
