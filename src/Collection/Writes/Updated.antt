-- ===== src/Collection/Writes/Updated.antt =====
-- `chroma_update` at arguments that are in order: it succeeds.
use mathlib.Core.List.{append-nil, Forall₂}
use chroma_db_net.Prelude.{
  ℕ, ◌≡◌, ◌≢◌, refl, ap, ◌∙◌, Option, none, some, List, [], ◌∷◌, ◌++◌, map, ==_false, Text, ok,
  ascii, length, length-snoc, get_elem?-append, append-cons,
}
use chroma_db_net.Memory.{
  Heap, Owner, cell_of, pointers, client, as_client, collection, as_collection,
}
use chroma_db_net.Memory.Laws.{peek_lem, read_slot_lem}
use chroma_db_net.Memory.Structs.{Ptr, null, F32, ChromaClient, ChromaCollection, success}
use chroma_db_net.Error.Reported.{IsOut}
use chroma_db_net.Ffi.{value, return, or_fail}
use chroma_db_net.Ffi.Replies.{Cleared, succeed_lem}
use chroma_db_net.Chroma.{Chroma}
use chroma_db_net.Collection.Arguments.{
  collect_optional_embeddings, read_optional_embeddings, parse_collection_id,
}
use chroma_db_net.Collection.Arguments.Reading.{
  Vectors, nil, no_vector, vector, IsVectors, no_vectors, vectors_at, Parsed, document_of,
  c_array_to_vec_f32_lem,
}
use chroma_db_net.Collection.Arguments.Whole.{Given, not_passed, passed}
use chroma_db_net.Collection.Arguments.Accepted.{
  read_ids_lem, read_metadatas_lem, read_documents_lem,
}
use chroma_db_net.Collection.Writes.{chroma_update}
use chroma_db_net.Collection.Writes.Ends.{Records}

collect_optional_embeddings_lem :
    {S : Type 0} (out : Ptr) (func_name : Text) (h : Heap) (s : S) (a : Ptr) (o : Owner)
    (rest : List (Option Ptr)) (dim : ℕ) (pre : List (Option Ptr)) (acc : List (Option (List F32)))
    {ps : List Ptr} {vs : List (Option (List F32))}
    → Vectors h.cell dim ps vs
    → h.cell a ≡ some (cell_of o (pointers (pre ++ (map some ps ++ rest))))
    → collect_optional_embeddings out func_name a dim (length pre) (length ps) acc h s
      ≡ value (acc ++ vs) h s
unfolding collect_optional_embeddings
collect_optional_embeddings_lem out func_name h s a o rest dim pre acc nil at = rw append-nil refl
collect_optional_embeddings_lem out func_name h s a o rest dim pre acc (no_vector {ps} {vs} more)
      at =
    rw
      (read_slot_lem a (length pre) null o (pre ++ some null ∷ (map some ps ++ rest)) h at
        (get_elem?-append pre _ _))
      (rw length-snoc at (
          collect_optional_embeddings_lem out func_name h s a o rest dim (pre ++ some null ∷ [])
            (acc ++ none ∷ []) more (rw append-cons at))
        ∙ ap (λ l. value l h s) (append-cons acc none vs))
collect_optional_embeddings_lem out func_name h s a o rest dim pre acc
      (vector {p} {ps} o' v rest' {vs} ne held len more) at =
    rw
      (
        read_slot_lem a (length pre) p o (pre ++ some p ∷ (map some ps ++ rest)) h at
            (get_elem?-append pre _ _),
        ==_false p null ne,
        c_array_to_vec_f32_lem h p o' v rest' ne held len,
      )
      (rw length-snoc at (
          collect_optional_embeddings_lem out func_name h s a o rest dim (pre ++ some p ∷ [])
            (acc ++ some v ∷ []) more (rw append-cons at))
        ∙ ap (λ l. value l h s) (append-cons acc (some v) vs))

read_optional_embeddings_lem :
    {S : Type 0} (out : Ptr) (func_name : Text) {h : Heap} (s : S) {p : Ptr} {n dim : ℕ}
    {vs : List (Option (List F32))} {v : Option (List (Option (List F32)))}
    → IsVectors h p n dim vs
    → Given p (λ l. l ≡ vs) v
    → read_optional_embeddings out func_name p dim n h s ≡ value v h s
unfolding read_optional_embeddings
read_optional_embeddings_lem out func_name s is_vs (not_passed e) = rw e refl
read_optional_embeddings_lem out func_name s (no_vectors e) (passed ne all) = absurd (ne e)
read_optional_embeddings_lem out func_name {h} s {p} {dim} (vectors_at ps _ arr len held)
      (passed ne all) =
    rw
      (
        ==_false p null ne,
        ← len,
        collect_optional_embeddings_lem out func_name h s p arr.owner arr.rest dim [] [] held
            arr.holds,
        all,
      )
      refl

module _ (C : Chroma) where
  -- With live handles, at least one record, ids that are all there, embeddings that are null or may
  -- lack some elements, metadata that is null or parses, documents that are null or strings, and a
  -- null or writable `error_out`: if the identifier of the collection parses, the request with all
  -- of these is made and the frontend updates, then `chroma_update` returns success, the state is
  -- the frontend's, and only `*error_out` changed, to null.
  pub update_succeeds :
      {h : Heap} {n dim : ℕ}
      {handle collection_handle ids embeddings metadatas documents error_out : Ptr} {o o' : Owner}
      {c : ChromaClient} {col : ChromaCollection} (s s' : C.State) (id : C.Uuid)
      (v : Option (List (Option (List F32)))) (m : Option (List (Option C.UpdateMetadata)))
      (d : Option (List (Option Text))) (request : C.Update)
      → (r : Records h n dim ids embeddings metadatas documents) → IsOut h error_out
      → handle ≢ null
      → collection_handle ≢ null
      → h.cell handle ≡ some (cell_of o (client c))
      → h.cell collection_handle ≡ some (cell_of o' (collection col))
      → ids ≢ null
      → n ≢ 0
      → Given embeddings (λ l. l ≡ r.vectors) v
      → Given metadatas (Forall₂ (Parsed C.parse_update_metadata) r.metadata_texts) m
      → Given documents (λ l. l ≡ map document_of r.document_texts) d
      → C.parse_uuid col.id ≡ ok id
      → C.new_update col.tenant col.database id r.id_texts v d m ≡ ok request
      → C.update c.frontend request s ≡ (ok tt, s')
      → (h' : Heap) × (chroma_update C handle collection_handle ids n embeddings dim metadatas
            documents error_out h s
          ≡ return success h' s')
        × Cleared error_out h h'
  unfolding chroma_update or_fail parse_collection_id
  update_succeeds {h} {n} {handle} {collection_handle} {ids} {error_out} s s' id v m d request r
        is_out ne ne' at at' ids_ne n_ne is_v is_m is_d is_id made sent =
      let (h', eq, clear) = succeed_lem s' is_out in
      let func = ascii "chroma_update" in
      (
        h',
        rw
            (
              ==_false handle null ne,
              ==_false collection_handle null ne',
              ==_false ids null ids_ne,
              ==_false n 0 n_ne,
              peek_lem as_client handle h refl at,
              peek_lem as_collection collection_handle h refl at',
              read_ids_lem error_out func s r.ids_at ids_ne,
              read_optional_embeddings_lem error_out func s r.embeddings_at is_v,
              read_metadatas_lem error_out func s C.parse_update_metadata r.metadatas_at is_m,
              read_documents_lem error_out func s r.documents_at is_d,
              is_id,
              made,
              sent,
            )
            eq,
        clear,
      )
