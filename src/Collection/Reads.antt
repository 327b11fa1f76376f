-- ===== src/Collection/Reads.antt =====
-- `chroma_count`, `chroma_get` and `chroma_query` of src/collection/operations.rs.
pub mod Count
pub mod Counted
pub mod Exhausted
use chroma_db_net.Prelude.{
  ℕ, ◌||◌, not, Bool, true, false, Option, none, some, List, [], ◌∷◌, ◌++◌, ltb, ◌==◌,
  if◌then◌else◌, Text, ascii, decimal, length,
}
use chroma_db_net.Memory.{peek, poke, alloc, as_client, as_collection, word, pointer, query_result}
use chroma_db_net.Memory.Structs.{Ptr, null, invalid_argument, internal_error, validation_error}
use chroma_db_net.Ffi.{Ffi, pure, ◌>>=◌, ◌>>◌, mem, call, fail, succeed, or_fail, when}
use chroma_db_net.Chroma.{Chroma}
use chroma_db_net.Utils.{c_array_to_vec_f32}
use chroma_db_net.Collection.Arguments.{
  is_empty, read_optional_ids, parse_collection_id, read_where,
}
use chroma_db_net.Collection.Results.{empty_result, marshal_get, marshal_query}

-- The message for the first of the three required pointers that is null.
unfoldable pub missing_result : Ptr → Ptr → Text
missing_result client_handle collection_handle =
    if client_handle == null
    then ascii "Client handle pointer is null"
    else if collection_handle == null
    then ascii "Collection handle pointer is null"
    else ascii "Result pointer is null"

unfoldable pub missing_query_argument : Ptr → Ptr → Ptr → Text
missing_query_argument client_handle collection_handle query_embeddings =
    if client_handle == null
    then ascii "Client handle pointer is null"
    else if collection_handle == null
    then ascii "Collection handle pointer is null"
    else if query_embeddings == null
    then ascii "Query embeddings pointer is null"
    else ascii "Result pointer is null"

-- One `if` of the include list.
unfoldable pub push_if : Bool → Text → List Text → List Text
push_if wanted name include = if wanted then include ++ name ∷ [] else include

unfoldable pub include_of_get : Bool → Bool → Bool → List Text
unfolding push_if
include_of_get embeddings metadatas documents =
    push_if documents (ascii "documents")
      (push_if metadatas (ascii "metadatas") (push_if embeddings (ascii "embeddings") []))

unfoldable pub include_of_query : Bool → Bool → Bool → Bool → List Text
unfolding push_if include_of_get
include_of_query embeddings metadatas documents distances =
    push_if distances (ascii "distances") (include_of_get embeddings metadatas documents)

-- A limit of zero is none.
unfoldable pub limit_of : ℕ → Option ℕ
limit_of limit = if ltb 0 limit then some limit else none

module _ (C : Chroma) where
  unfoldable pub chroma_count : Ptr → Ptr → Ptr → Ptr → Ffi C.State (Unit {0})
  chroma_count client_handle collection_handle result error_out = do
    let func_name = ascii "chroma_count"
    when (client_handle == null || collection_handle == null || result == null) (
        fail error_out func_name invalid_argument (missing_result client_handle collection_handle)
          none)
    client ← mem (peek as_client client_handle)
    collection ← mem (peek as_collection collection_handle)
    collection_id ← parse_collection_id C error_out func_name collection
    request ←
        or_fail error_out func_name validation_error (ascii "Failed to create count request")
          (ascii "Validation error: ")
          (C.new_count collection.tenant collection.database collection_id)
    reply ← call (C.count client.frontend request)
    count_response ←
        or_fail error_out func_name internal_error (ascii "Failed to count documents")
          (ascii "Error: ") reply
    mem (poke result (word count_response))
    succeed error_out

  unfoldable pub chroma_get :
      Ptr
      → Ptr
      → Ptr
      → ℕ
      → Ptr
      → Ptr
      → ℕ
      → ℕ
      → Bool
      → Bool
      → Bool
      → Ptr
      → Ptr
      → Ffi C.State (Unit {0})
  chroma_get client_handle collection_handle ids ids_count where_filter_json where_document_filter
        limit offset include_embeddings include_metadatas include_documents result error_out =
      do
        let func_name = ascii "chroma_get"
        when (client_handle == null || collection_handle == null || result == null) (
            fail error_out func_name invalid_argument
              (missing_result client_handle collection_handle) none)
        client ← mem (peek as_client client_handle)
        collection ← mem (peek as_collection collection_handle)
        ids_vec ← read_optional_ids error_out func_name ids ids_count
        where_filter ← read_where C error_out func_name where_filter_json where_document_filter
        collection_id ← parse_collection_id C error_out func_name collection
        include_list ←
            or_fail error_out func_name validation_error (ascii "Invalid include list")
              (ascii "Include list validation error: ")
              (C.include_list
                (include_of_get include_embeddings include_metadatas include_documents))
        request ←
            or_fail error_out func_name validation_error (ascii "Failed to create get request")
              (ascii "Validation error: ")
              (C.new_get collection.tenant collection.database collection_id ids_vec where_filter
                (limit_of limit) offset include_list)
        reply ← call (C.get client.frontend request)
        response ←
            or_fail error_out func_name internal_error (ascii "Failed to get documents")
              (ascii "Error: ") reply
        r ← mem (marshal_get C.metadata_text response)
        boxed ← mem (alloc (query_result r))
        mem (poke result (pointer boxed))
        succeed error_out

  unfoldable pub chroma_query :
      Ptr
      → Ptr
      → Ptr
      → ℕ
      → ℕ
      → Ptr
      → Ptr
      → Bool
      → Bool
      → Bool
      → Bool
      → Ptr
      → Ptr
      → Ffi C.State (Unit {0})
  chroma_query client_handle collection_handle query_embeddings embedding_dim n_results
        where_filter_json where_document_filter include_embeddings include_metadatas
        include_documents include_distances result error_out =
      do
        let func_name = ascii "chroma_query"
        when
            (client_handle == null
              || collection_handle == null
              || query_embeddings == null
              || result == null)
            (fail error_out func_name invalid_argument
              (missing_query_argument client_handle collection_handle query_embeddings) none)
        client ← mem (peek as_client client_handle)
        collection ← mem (peek as_collection collection_handle)
        collection_id ← parse_collection_id C error_out func_name collection
        embedding ← mem (c_array_to_vec_f32 query_embeddings embedding_dim)
        when (is_empty embedding || not (length embedding == embedding_dim)) (
            fail error_out func_name invalid_argument (ascii "Invalid query embedding") (
              some (
                ascii "Expected dimension "
                ++ (decimal embedding_dim ++ (ascii ", got " ++ decimal (length embedding))))))
        where_filter ← read_where C error_out func_name where_filter_json where_document_filter
        include_list ←
            or_fail error_out func_name validation_error (ascii "Invalid include list")
              (ascii "Include list validation error: ")
              (C.include_list (
                include_of_query include_embeddings include_metadatas include_documents
                  include_distances))
        request ←
            or_fail error_out func_name validation_error (ascii "Failed to create query request")
              (ascii "Validation error: ")
              (C.new_query collection.tenant collection.database collection_id where_filter
                (embedding ∷ []) n_results include_list)
        reply ← call (C.query client.frontend request)
        response ←
            or_fail error_out func_name internal_error (ascii "Failed to execute query")
              (ascii "Error: ") reply
        r ← mem (marshal_query C.metadata_text response)
        boxed ← mem (alloc (query_result r))
        mem (poke result (pointer boxed))
        succeed error_out
