-- ===== src/Collection/Arguments.antt =====
-- The arguments of the document functions in src/collection/operations.rs: each loop over the
-- caller's arrays, from element `i` on, and the filters.
pub mod Reading
pub mod Loops
pub mod Whole
pub mod Accepted
use chroma_db_net.Prelude.{
  ℕ, zero, suc, ◌+◌, ◌||◌, ◌&&◌, not, Bool, true, false, Option, none, some, List, [], ◌∷◌, ◌++◌,
  ltb, ◌==◌, if◌then◌else◌, Text, Result, ascii, decimal,
}
use chroma_db_net.Memory.{read_slot}
use chroma_db_net.Memory.Structs.{
  Ptr, null, F32, ChromaCollection, invalid_argument, validation_error, invalid_uuid,
}
use chroma_db_net.Ffi.{Ffi, pure, ◌>>=◌, ◌>>◌, mem, call, fail, or_fail, when, read_optional_text}
use chroma_db_net.Chroma.{Chroma}
use chroma_db_net.Utils.{c_str_to_string, c_array_to_vec_string, c_array_to_vec_f32}

-- `is_empty`
unfoldable pub is_empty : {A : Type 0} → List A → Bool
is_empty [] = true
is_empty (x ∷ xs) = false

-- The text behind a message of a loop, `Error at index i: `.
abbrev pub at_index : Text → ℕ → Text
at_index before i = before ++ (decimal i ++ ascii ": ")

module _ {S : Type 0} (error_out : Ptr) (func_name : Text) where
  unfoldable pub read_ids : Ptr → ℕ → Ffi S (List Text)
  read_ids ids ids_count = do
    r ← mem (c_array_to_vec_string ids ids_count)
    or_fail error_out func_name invalid_argument (ascii "Failed to convert IDs array") [] r

  -- `delete` and `get` take ids or none.
  unfoldable pub read_optional_ids : Ptr → ℕ → Ffi S (Option (List Text))
  unfolding read_ids
  read_optional_ids ids ids_count =
      if not (ids == null) && ltb 0 ids_count
      then (do v ← read_ids ids ids_count; pure (some v))
      else pure none

  -- `add` and `upsert`: every document has its embedding.
  unfoldable pub collect_embeddings : Ptr → ℕ → ℕ → ℕ → List (List F32) → Ffi S (List (List F32))
  collect_embeddings embeddings dim i zero result = pure result
  collect_embeddings embeddings dim i (suc left) result = do
    p ← mem (read_slot embeddings i)
    when (p == null) (
        fail error_out func_name invalid_argument (ascii "Embedding pointer is null")
          (some (ascii "Null embedding at index " ++ decimal i)))
    v ← mem (c_array_to_vec_f32 p dim)
    collect_embeddings embeddings dim (i + 1) left (result ++ v ∷ [])

  unfoldable pub read_embeddings : Ptr → ℕ → ℕ → Ffi S (List (List F32))
  read_embeddings embeddings dim ids_count = do
    when (embeddings == null)
        (fail error_out func_name invalid_argument (ascii "Embeddings pointer is null") none)
    collect_embeddings embeddings dim 0 ids_count []

  -- `update`: a document without one keeps its embedding.
  unfoldable pub collect_optional_embeddings :
      Ptr → ℕ → ℕ → ℕ → List (Option (List F32)) → Ffi S (List (Option (List F32)))
  collect_optional_embeddings embeddings dim i zero result = pure result
  collect_optional_embeddings embeddings dim i (suc left) result = do
    p ← mem (read_slot embeddings i)
    e ← if p == null then pure none else (do v ← mem (c_array_to_vec_f32 p dim); pure (some v))
    collect_optional_embeddings embeddings dim (i + 1) left (result ++ e ∷ [])

  unfoldable pub read_optional_embeddings : Ptr → ℕ → ℕ → Ffi S (Option (List (Option (List F32))))
  read_optional_embeddings embeddings dim ids_count =
      if embeddings == null
      then pure none
      else (do v ← collect_optional_embeddings embeddings dim 0 ids_count []; pure (some v))

  -- One metadata string: absent, empty, or JSON.
  unfoldable pub read_metadata : {M : Type 0} → (Text → Result M) → ℕ → Ptr → Ffi S (Option M)
  read_metadata parse i p = if p == null then pure none else do
    r ← mem (c_str_to_string p)
    t ←
        or_fail error_out func_name invalid_argument (ascii "Failed to convert metadata string")
          (at_index (ascii "Error at index ") i) r
    if is_empty t then pure none else do
      m ←
          or_fail error_out func_name validation_error (ascii "Invalid metadata JSON")
            (at_index (ascii "Error parsing metadata at index ") i) (parse t)
      pure (some m)

  unfoldable pub collect_metadatas :
      {M : Type 0} → (Text → Result M) → Ptr → ℕ → ℕ → List (Option M) → Ffi S (List (Option M))
  collect_metadatas parse metadatas i zero result = pure result
  collect_metadatas parse metadatas i (suc left) result = do
    p ← mem (read_slot metadatas i)
    m ← read_metadata parse i p
    collect_metadatas parse metadatas (i + 1) left (result ++ m ∷ [])

  unfoldable pub read_metadatas :
      {M : Type 0} → (Text → Result M) → Ptr → ℕ → Ffi S (Option (List (Option M)))
  read_metadatas parse metadatas ids_count =
      if metadatas == null
      then pure none
      else (do v ← collect_metadatas parse metadatas 0 ids_count []; pure (some v))

  -- One document: absent, empty, or a text.
  unfoldable pub read_document : ℕ → Ptr → Ffi S (Option Text)
  read_document i p = if p == null then pure none else do
    r ← mem (c_str_to_string p)
    t ←
        or_fail error_out func_name invalid_argument (ascii "Failed to convert document string")
          (at_index (ascii "Error at index ") i) r
    pure (if is_empty t then none else some t)

  unfoldable pub collect_documents : Ptr → ℕ → ℕ → List (Option Text) → Ffi S (List (Option Text))
  collect_documents documents i zero result = pure result
  collect_documents documents i (suc left) result = do
    p ← mem (read_slot documents i)
    d ← read_document i p
    collect_documents documents (i + 1) left (result ++ d ∷ [])

  unfoldable pub read_documents : Ptr → ℕ → Ffi S (Option (List (Option Text)))
  read_documents documents ids_count =
      if documents == null
      then pure none
      else (do v ← collect_documents documents 0 ids_count []; pure (some v))

module _ (C : Chroma) (error_out : Ptr) (func_name : Text) where
  unfoldable pub parse_collection_id : ChromaCollection → Ffi C.State C.Uuid
  parse_collection_id collection =
      or_fail error_out func_name invalid_uuid (ascii "Invalid collection UUID")
        (ascii "UUID parse error: ") (C.parse_uuid collection.id)

  abbrev parse_filters : Option Text → Option Text → Ffi C.State (Option C.Where)
  parse_filters json document = do
    raw ←
        or_fail error_out func_name validation_error (ascii "Failed to create where filters")
          (ascii "Filter creation error: ") (C.where_from_json json document)
    or_fail error_out func_name validation_error (ascii "Failed to parse where filters")
        (ascii "Filter validation error: ") (C.parse_where raw)

  -- The filters are parsed only if one is given.
  unfoldable pub where_of : Option Text → Option Text → Ffi C.State (Option C.Where)
  where_of none none = pure none
  where_of none (some d) = parse_filters none (some d)
  where_of (some j) document = parse_filters (some j) document

  unfoldable pub read_where : Ptr → Ptr → Ffi C.State (Option C.Where)
  unfolding where_of
  read_where where_filter_json where_document_filter = do
    json ←
        read_optional_text error_out func_name (ascii "Failed to convert where filter JSON string")
          where_filter_json
    document ←
        read_optional_text error_out func_name (ascii "Failed to convert document filter string")
          where_document_filter
    where_of json document
