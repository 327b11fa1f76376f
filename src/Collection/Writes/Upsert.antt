-- ===== src/Collection/Writes/Upsert.antt =====
-- `chroma_upsert`: what it sends to the frontend, and what it leaves.
use mathlib.Core.List.{Forall₂}
use chroma_db_net.Prelude.{
  ℕ, ◌||◌, ◌≡◌, Bool, Option, none, some, List, map, ◌==◌, Text, Result, ok, ascii,
}
use chroma_db_net.Memory.{Heap}
use chroma_db_net.Memory.Laws.{IsHeap}
use chroma_db_net.Memory.Structs.{internal_error, Ptr, null, F32, ChromaClient, ChromaCollection}
use chroma_db_net.Error.Reported.{IsOut}
use chroma_db_net.Ffi.Replies.{
  Ends, succeeded, argument, validation, Cleared, Ends-bind, when-Reads, or_fail-Reads,
  or_fail-Ends, succeed_lem,
}
use chroma_db_net.Ffi.Handles.{
  IsClient, IsCollection, client-Reads, collection-Reads, or-left, or-right,
}
use chroma_db_net.Chroma.{Chroma}
use chroma_db_net.Collection.Arguments.Reading.{Parsed, document_of, read_ids-Reads}
use chroma_db_net.Collection.Arguments.Whole.{
  Given, read_embeddings-Reads, read_metadatas-Reads, read_documents-Reads, collection_id-Reads,
}
use chroma_db_net.Collection.Writes.{chroma_upsert}
use chroma_db_net.Collection.Writes.Ends.{Records}

module _ (C : Chroma) where
  open C use {State}

  -- The call of `chroma_upsert`.
  abbrev pub UpsertSent :
      {h : Heap} {n dim : ℕ} {ids embeddings metadatas documents : Ptr}
      → Records h n dim ids embeddings metadatas documents
      → ChromaClient
      → ChromaCollection
      → State
      → Result (Unit {0})
      → State
      → Type 0
  UpsertSent {embeddings} {metadatas} {documents} r c col s reply s' =
      (id : C.Uuid) × (v : List (List F32)) × (m : Option (List (Option C.UpdateMetadata)))
      × (d : Option (List (Option Text))) × (request : C.Upsert) × (C.parse_uuid col.id ≡ ok id)
      × (map some v ≡ r.vectors)
      × Given metadatas (Forall₂ (Parsed C.parse_update_metadata) r.metadata_texts) m
      × Given documents (λ l. l ≡ map document_of r.document_texts) d
      × (C.new_upsert col.tenant col.database id r.id_texts v d m ≡ ok request)
      × (C.upsert c.frontend request s ≡ (reply, s'))

  -- On a valid heap, with a null or live client and collection, readable arguments and null or
  -- writable places behind every out pointer, `chroma_upsert` does not fault and ends in one of
  -- three ways. An early error (invalid argument, validation or UUID) leaves the state as it was,
  -- and is reported at `error_out` unless that is null. Otherwise the frontend is called once: the
  -- request holds the ids, embeddings, parsed metadata and documents of the caller's arrays in
  -- order, all embeddings present. If it answers with an error, internal error is returned, and
  -- reported at `error_out` unless that is null; if not, the code is success and only `*error_out`
  -- changed, to null.
  pub upsert-Ends :
      (h : Heap) (s : State) (c : ChromaClient) (col : ChromaCollection) (n dim : ℕ)
      (handle collection_handle ids embeddings metadatas documents error_out : Ptr)
      → IsHeap h
      → IsOut h error_out
      → IsClient h handle c
      → IsCollection h collection_handle col
      → (r : Records h n dim ids embeddings metadatas documents)
      → Ends error_out
          (ascii "chroma_upsert")
          h
          internal_error
          s
          (UpsertSent r c col s)
          (λ _ h'. Cleared error_out h h')
          (chroma_upsert C handle collection_handle ids n embeddings dim metadatas documents
            error_out h s)
  unfolding chroma_upsert
  upsert-Ends h s c col n dim handle collection_handle ids embeddings metadatas documents error_out
        heap is_out cl is_col r =
      Ends-bind _ (when-Reads func heap is_out s bad _ none argument) λ _ checked.
        Ends-bind _
          (client-Reads func s cl
            (or-left (handle == null) _ (or-left _ (ids == null) (or-left _ (n == 0) checked))))
          λ client is_c.
            Ends-bind _
              (collection-Reads func s is_col (
                or-right (handle == null) _ (or-left _ (ids == null) (or-left _ (n == 0) checked))))
              λ collection is_collection.
                Ends-bind _
                  (read_ids-Reads func heap is_out s r.ids_at (
                    or-right (handle == null || collection_handle == null) _
                      (or-left _ (n == 0) checked)))
                  λ id_texts are_ids.
                    Ends-bind _ (read_embeddings-Reads func heap is_out s r.embeddings_at)
                      λ v are_vectors.
                        Ends-bind _
                          (read_metadatas-Reads func heap is_out s C.parse_update_metadata
                            r.metadatas_at)
                          λ m are_metadatas.
                            Ends-bind _ (read_documents-Reads func heap is_out s r.documents_at)
                              λ d are_documents.
                                Ends-bind _ (collection_id-Reads C func heap is_out s collection)
                                  λ id is_id.
                                    Ends-bind _
                                      (or_fail-Reads func heap is_out s _ _
                                        (C.new_upsert collection.tenant collection.database id
                                          id_texts v d m)
                                        validation)
                                      λ request made.
                                        or_fail-Ends func heap is_out
                                          (C.upsert client.frontend request s).1 _ _ _ _
                                          (
                                            id,
                                            v,
                                            m,
                                            d,
                                            request,
                                            rw is_collection at is_id,
                                            are_vectors,
                                            are_metadatas,
                                            are_documents,
                                            rw (is_collection, are_ids) at made,
                                            rw is_c,
                                          )
                                          λ u sent.
                                            let (h', eq, clear) =
                                              succeed_lem (C.upsert client.frontend request s).1
                                                is_out in
                                            rw eq (succeeded u sent clear)
    where
      func : Text
      func = ascii "chroma_upsert"

      bad : Bool
      bad = handle == null || collection_handle == null || ids == null || n == 0
