-- ===== src/Collection/Arguments/Whole.antt =====
-- The arguments of the document functions as a whole, arrays that are not given included.
use mathlib.Core.List.{Forall₂}
use chroma_db_net.Prelude.{
  ℕ, ◌≡◌, ◌≢◌, ◌⊎◌, inl, inr, refl, Option, none, some, List, [], map, Text, Result, ok, arith,
  ==_false, Bool-cases, ltb,
}
use chroma_db_net.Memory.{Heap}
use chroma_db_net.Memory.Laws.{IsHeap}
use chroma_db_net.Memory.Structs.{Ptr, null, F32, ChromaCollection}
use chroma_db_net.Error.Reported.{IsOut}
use chroma_db_net.Ffi.Replies.{
  Reads, got, argument, validation, uuid, fail-Reads, or_fail-Reads, Reads-bind, Reads-mono,
}
use chroma_db_net.Ffi.Texts.{Readable, OptionalText, read_optional_text-Reads}
use chroma_db_net.Chroma.{Chroma}
use chroma_db_net.Collection.Arguments.{
  read_embeddings, read_optional_embeddings, read_optional_ids, read_metadatas, read_documents,
  parse_collection_id, where_of, read_where,
}
use chroma_db_net.Collection.Arguments.Reading.{
  IsTexts, no_texts, texts_at, IsVectors, no_vectors, vectors_at, Parsed, document_of,
  read_ids-Reads,
}
use chroma_db_net.Collection.Arguments.Loops.{
  collect_embeddings-Reads, collect_optional_embeddings-Reads, collect_metadatas-Reads,
  collect_documents-Reads,
}

-- What an array that may be missing is read as.
pub data Given {A : Type 0} (p : Ptr) (Q : A → Type 0) : Option A → Type 0 where
  not_passed : p ≡ null → Given p Q none
  passed : {a : A} → p ≢ null → Q a → Given p Q (some a)

module _ {S : Type 0} {out : Ptr} (func_name : Text) {h : Heap} (heap : IsHeap h)
    (is_out : IsOut h out) (s : S) where
  -- Every document has an embedding.
  pub read_embeddings-Reads :
      {p : Ptr} {n dim : ℕ} {vs : List (Option (List F32))}
      → IsVectors h p n dim vs
      → Reads out func_name h s (λ v. map some v ≡ vs) (read_embeddings out func_name p dim n h s)
  unfolding read_embeddings
  read_embeddings-Reads (no_vectors e) =
      rw e (Reads-bind _ (fail-Reads func_name heap is_out s _ _ argument) (λ _ (x : ⊥). absurd x))
  read_embeddings-Reads {p} {dim} {vs} (vectors_at ps ne arr len held) =
      rw (==_false p null ne, ← len)
        (Reads-mono
          (collect_embeddings-Reads func_name heap is_out s p arr.owner arr.rest dim [] [] held
            arr.holds)
          (λ r (v, e, m). rw e m))

  pub read_optional_embeddings-Reads :
      {p : Ptr} {n dim : ℕ} {vs : List (Option (List F32))}
      → IsVectors h p n dim vs
      → Reads out func_name h s
          (Given p (λ v. v ≡ vs))
          (read_optional_embeddings out func_name p dim n h s)
  unfolding read_optional_embeddings
  read_optional_embeddings-Reads (no_vectors e) = rw e (got (not_passed refl))
  read_optional_embeddings-Reads {p} {dim} {vs} (vectors_at ps ne arr len held) =
      rw (==_false p null ne, ← len)
        (Reads-bind _
          (collect_optional_embeddings-Reads func_name heap is_out s p arr.owner arr.rest dim [] []
            held arr.holds)
          (λ v e. got (passed ne e)))

  pub read_metadatas-Reads :
      {M : Type 0} (parse : Text → Result M) {p : Ptr} {n : ℕ} {ts : List Text}
      → IsTexts h p n ts
      → Reads out func_name h s
          (Given p (Forall₂ (Parsed parse) ts))
          (read_metadatas out func_name parse p n h s)
  unfolding read_metadatas
  read_metadatas-Reads parse (no_texts e) = rw e (got (not_passed refl))
  read_metadatas-Reads parse {p} {ts} (texts_at ps ne arr len held) =
      rw (==_false p null ne, ← len)
        (Reads-bind _
          (collect_metadatas-Reads func_name heap is_out s p arr.owner arr.rest parse [] [] held
            arr.holds)
          (λ v (ms, e, all). got (passed ne (rw e all))))

  pub read_documents-Reads :
      {p : Ptr} {n : ℕ} {ts : List Text}
      → IsTexts h p n ts
      → Reads out func_name h s
          (Given p (λ d. d ≡ map document_of ts))
          (read_documents out func_name p n h s)
  unfolding read_documents
  read_documents-Reads (no_texts e) = rw e (got (not_passed refl))
  read_documents-Reads {p} {ts} (texts_at ps ne arr len held) =
      rw (==_false p null ne, ← len)
        (Reads-bind _
          (collect_documents-Reads func_name heap is_out s p arr.owner arr.rest [] [] held
            arr.holds)
          (λ v e. got (passed ne e)))

-- Ids that need not be given: a null array and an empty one are both no ids.
pub data OptionalIds (p : Ptr) (n : ℕ) (ts : List Text) : Option (List Text) → Type 0 where
  unlisted : ((p ≡ null) ⊎ (n ≡ 0)) → OptionalIds p n ts none
  listed : p ≢ null → n ≢ 0 → OptionalIds p n ts (some ts)

module _ {S : Type 0} {out : Ptr} (func_name : Text) {h : Heap} (heap : IsHeap h)
    (is_out : IsOut h out) (s : S) where
  pub read_optional_ids-Reads :
      {p : Ptr} {n : ℕ} {ts : List Text}
      → IsTexts h p n ts
      → Reads out func_name h s (OptionalIds p n ts) (read_optional_ids out func_name p n h s)
  unfolding read_optional_ids
  read_optional_ids-Reads (no_texts e) = rw e (got (unlisted (inl refl)))
  read_optional_ids-Reads {p} {n} {ts} (texts_at ps ne arr len strs) = elim (Bool-cases (ltb 0 n)) [
    | inl more ↦
        rw (==_false p null ne, more)
          (Reads-bind _
            (read_ids-Reads func_name heap is_out s (texts_at ps ne arr len strs)
              (==_false p null ne))
            (λ v e. rw e (got (listed ne (ground arith)))))
    | inr empty ↦ rw (==_false p null ne, empty) (got (unlisted (inr (ground arith))))
  ]

-- The filter that two optional texts stand for.
pub data IsWhere (C : Chroma) (json document : Option Text) (w : Option C.Where) : Type 0 where
  unfiltered : json ≡ none → document ≡ none → w ≡ none → IsWhere C json document w
  filtered :
      (raw : C.RawWhere)
      → (json ≢ none) ⊎ (document ≢ none)
      → C.where_from_json json document ≡ ok raw
      → C.parse_where raw ≡ ok w
      → IsWhere C json document w

module _ (C : Chroma) {out : Ptr} (func_name : Text) {h : Heap} (heap : IsHeap h)
    (is_out : IsOut h out) (s : C.State) where
  pub collection_id-Reads :
      (c : ChromaCollection)
      → Reads out func_name h s
          (λ id. C.parse_uuid c.id ≡ ok id)
          (parse_collection_id C out func_name c h s)
  unfolding parse_collection_id
  collection_id-Reads c =
      Reads-mono (or_fail-Reads func_name heap is_out s _ _ (C.parse_uuid c.id) uuid) (λ a e. e)

  where_of-Reads :
      (json document : Option Text)
      → Reads out func_name h s
          (IsWhere C json document)
          (where_of C out func_name json document h s)
  unfolding where_of
  where_of-Reads none none = got (unfiltered refl refl refl)
  where_of-Reads none (some d) =
      Reads-bind _
        (or_fail-Reads func_name heap is_out s _ _ (C.where_from_json none (some d)) validation)
        λ raw made.
          Reads-mono (or_fail-Reads func_name heap is_out s _ _ (C.parse_where raw) validation)
            λ w parsed. filtered raw (inr λ e. ground arith) made parsed
  where_of-Reads (some j) document =
      Reads-bind _
        (or_fail-Reads func_name heap is_out s _ _ (C.where_from_json (some j) document) validation)
        λ raw made.
          Reads-mono (or_fail-Reads func_name heap is_out s _ _ (C.parse_where raw) validation)
            λ w parsed. filtered raw (inl λ e. ground arith) made parsed

  pub read_where-Reads :
      {p q : Ptr}
      → Readable h p
      → Readable h q
      → Reads out func_name h s
          (λ w.
            (j : Option Text) × (d : Option Text) × OptionalText h p j
            × OptionalText h q d
            × IsWhere C j d w)
          (read_where C out func_name p q h s)
  unfolding read_where
  read_where-Reads rp rq =
      Reads-bind _ (read_optional_text-Reads func_name heap is_out s _ rp) λ j is_j.
        Reads-bind _ (read_optional_text-Reads func_name heap is_out s _ rq)
          λ d is_d. Reads-mono (where_of-Reads j d) λ w is_w. (j, d, is_j, is_d, is_w)
