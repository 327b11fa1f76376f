-- ===== src/Collection/Writes/Accepted.antt =====
-- The handlers that write documents, at arguments that are in order: they succeed.
use mathlib.Core.List.{Forall₂}
use chroma_db_net.Prelude.{
  ℕ, ◌≡◌, ◌≢◌, refl, sym, subst, Option, some, List, map, ==_false, Text, Result, ok, ascii,
}
use chroma_db_net.Memory.{Heap, Owner, cell_of, client, as_client, collection, as_collection}
use chroma_db_net.Memory.Laws.{peek_lem}
use chroma_db_net.Memory.Structs.{Ptr, null, F32, ChromaClient, ChromaCollection, success}
use chroma_db_net.Error.Reported.{IsOut}
use chroma_db_net.Ffi.{return, or_fail}
use chroma_db_net.Ffi.Replies.{Cleared, succeed_lem}
use chroma_db_net.Chroma.{Chroma}
use chroma_db_net.Collection.Arguments.{parse_collection_id}
use chroma_db_net.Collection.Arguments.Reading.{IsVectors, Parsed, document_of}
use chroma_db_net.Collection.Arguments.Whole.{Given}
use chroma_db_net.Collection.Arguments.Accepted.{
  read_ids_lem, read_embeddings_lem, read_metadatas_lem, read_documents_lem,
}
use chroma_db_net.Collection.Writes.{chroma_add, chroma_upsert}
use chroma_db_net.Collection.Writes.Ends.{Records}

-- Handles and arrays in order, with what they hold.
pub record IsReady (h : Heap) (n dim : ℕ)
    (handle collection_handle ids embeddings metadatas documents : Ptr) {M : Type 0}
    (parse : Text → Result M) : Type 0 where
  pub some_client : ChromaClient
  pub some_collection : ChromaCollection
  pub client_owner : Owner
  pub collection_owner : Owner
  pub client_ne : handle ≢ null
  pub collection_ne : collection_handle ≢ null
  pub client_at : h.cell handle ≡ some (cell_of client_owner (client some_client))
  pub collection_at :
      h.cell collection_handle ≡ some (cell_of collection_owner (collection some_collection))
  pub records : Records h n dim ids embeddings metadatas documents
  pub not_empty : n ≢ 0
  pub ids_ne : ids ≢ null
  pub embeddings_ne : embeddings ≢ null
  pub all_vectors : List (List F32)
  pub vectors_eq : map some all_vectors ≡ records.vectors
  pub parsed_metadatas : Option (List (Option M))
  pub parsed_eq : Given metadatas (Forall₂ (Parsed parse) records.metadata_texts) parsed_metadatas
  pub read_texts : Option (List (Option Text))
  pub texts_eq : Given documents (λ l. l ≡ map document_of records.document_texts) read_texts

embeddings_at :
    {h : Heap} {n dim : ℕ} {handle collection_handle ids embeddings metadatas documents : Ptr}
    {M : Type 0} {parse : Text → Result M}
    (r : IsReady h n dim handle collection_handle ids embeddings metadatas documents parse)
    → IsVectors h embeddings n dim (map some r.all_vectors)
embeddings_at {h} {n} {dim} {embeddings} r =
    subst (λ v. IsVectors h embeddings n dim v) (sym r.vectors_eq) r.records.embeddings_at

module _ (C : Chroma) {h : Heap} {n dim : ℕ}
    {handle collection_handle ids embeddings metadatas documents error_out : Ptr} (s s' : C.State)
    (is_out : IsOut h error_out) where
  -- With live handles, at least one record, ids and embeddings that are all there, metadata that is
  -- null or parses, documents that are null or strings, and a null or writable `error_out`: if the
  -- identifier of the collection parses, the request is made and the frontend adds it, then
  -- `chroma_add` returns success, the state is the frontend's, and only `*error_out` changed, to
  -- null.
  pub add_succeeds :
      (r : IsReady h n dim handle collection_handle ids embeddings metadatas documents
        C.parse_metadata)
      (id : C.Uuid) (request : C.Add)
      → C.parse_uuid r.some_collection.id ≡ ok id
      → C.new_add r.some_collection.tenant r.some_collection.database id r.records.id_texts
          r.all_vectors r.read_texts r.parsed_metadatas
        ≡ ok request
      → C.add r.some_client.frontend request s ≡ (ok tt, s')
      → (h' : Heap) × (chroma_add C handle collection_handle ids n embeddings dim metadatas
            documents error_out h s
          ≡ return success h' s')
        × Cleared error_out h h'
  unfolding chroma_add or_fail parse_collection_id
  add_succeeds r id request is_id made sent =
      let (h', eq, clear) = succeed_lem s' is_out in
      let func = ascii "chroma_add" in
      (
        h',
        rw
            (
              ==_false handle null r.client_ne,
              ==_false collection_handle null r.collection_ne,
              ==_false ids null r.ids_ne,
              ==_false n 0 r.not_empty,
              peek_lem as_client handle h refl r.client_at,
              peek_lem as_collection collection_handle h refl r.collection_at,
              read_ids_lem error_out func s r.records.ids_at r.ids_ne,
              read_embeddings_lem error_out func s r.all_vectors (embeddings_at r) r.embeddings_ne,
              read_metadatas_lem error_out func s C.parse_metadata r.records.metadatas_at
                  r.parsed_eq,
              read_documents_lem error_out func s r.records.documents_at r.texts_eq,
              is_id,
              made,
              sent,
            )
            eq,
        clear,
      )

  -- With live handles, at least one record, ids and embeddings that are all there, metadata that is
  -- null or parses, documents that are null or strings, and a null or writable `error_out`: if the
  -- identifier of the collection parses, the request is made and the frontend upserts it, then
  -- `chroma_upsert` returns success, the state is the frontend's, and only `*error_out` changed, to
  -- null.
  pub upsert_succeeds :
      (r : IsReady h n dim handle collection_handle ids embeddings metadatas documents
        C.parse_update_metadata)
      (id : C.Uuid) (request : C.Upsert)
      → C.parse_uuid r.some_collection.id ≡ ok id
      → C.new_upsert r.some_collection.tenant r.some_collection.database id r.records.id_texts
          r.all_vectors r.read_texts r.parsed_metadatas
        ≡ ok request
      → C.upsert r.some_client.frontend request s ≡ (ok tt, s')
      → (h' : Heap) × (chroma_upsert C handle collection_handle ids n embeddings dim metadatas
            documents error_out h s
          ≡ return success h' s')
        × Cleared error_out h h'
  unfolding chroma_upsert or_fail parse_collection_id
  upsert_succeeds r id request is_id made sent =
      let (h', eq, clear) = succeed_lem s' is_out in
      let func = ascii "chroma_upsert" in
      (
        h',
        rw
            (
              ==_false handle null r.client_ne,
              ==_false collection_handle null r.collection_ne,
              ==_false ids null r.ids_ne,
              ==_false n 0 r.not_empty,
              peek_lem as_client handle h refl r.client_at,
              peek_lem as_collection collection_handle h refl r.collection_at,
              read_ids_lem error_out func s r.records.ids_at r.ids_ne,
              read_embeddings_lem error_out func s r.all_vectors (embeddings_at r) r.embeddings_ne,
              read_metadatas_lem error_out func s C.parse_update_metadata r.records.metadatas_at
                  r.parsed_eq,
              read_documents_lem error_out func s r.records.documents_at r.texts_eq,
              is_id,
              made,
              sent,
            )
            eq,
        clear,
      )
