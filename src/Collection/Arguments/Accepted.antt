-- ===== src/Collection/Arguments/Accepted.antt =====
-- Reading arrays of arguments that are in order.
use mathlib.Core.List.{append-nil, Forall₂}
use chroma_db_net.Prelude.{
  ℕ, ◌≡◌, ◌≢◌, refl, ap, ◌∙◌, Option, none, some, List, [], ◌∷◌, ◌++◌, map, Text, Result, length,
  length-snoc, get_elem?-append, append-cons, ==_false, Bool-cases, inl, inr,
}
use chroma_db_net.Memory.{Heap, done, read_slot, cell_of, Owner, pointers, chars}
use chroma_db_net.Memory.Laws.{read_slot_lem}
use chroma_db_net.Memory.Structs.{Ptr, null, F32}
use chroma_db_net.Utils.{rust_text}
use chroma_db_net.Utils.Reading.{
  Strings, no_text, text, c_str_to_string_lem, c_array_to_vec_string_lem,
}
use chroma_db_net.Ffi.{value, or_fail}
use chroma_db_net.Collection.Arguments.{
  is_empty, read_ids, read_metadata, read_document, collect_embeddings, read_embeddings,
  collect_metadatas, read_metadatas, collect_documents, read_documents,
}
use chroma_db_net.Collection.Arguments.Reading.{
  IsTexts, no_texts, texts_at, IsVectors, no_vectors, vectors_at, Vectors, nil, vector, Parsed,
  blank, parsed, document_of, document_of-blank, c_array_to_vec_f32_lem, is_empty-eq,
}
use chroma_db_net.Collection.Arguments.Whole.{Given, not_passed, passed}

module _ {S : Type 0} (out : Ptr) (func_name : Text) {h : Heap} (s : S) where
  pub read_ids_lem :
      {p : Ptr} {n : ℕ} {ts : List Text}
      → IsTexts h p n ts
      → p ≢ null
      → read_ids out func_name p n h s ≡ value ts h s
  unfolding read_ids or_fail
  read_ids_lem (no_texts e) ne = absurd (ne e)
  read_ids_lem {p} {ts} (texts_at ps ne arr len strs) _ =
      rw (← len, c_array_to_vec_string_lem {ps = ps} {ts = ts} h p ne arr strs) refl

  read_metadata_lem :
      {M : Type 0} (parse : Text → Result M) (i : ℕ) {p : Ptr} {o : Owner} {raw t : Text}
      {m : Option M}
      → p ≢ null
      → h.cell p ≡ some (cell_of o (chars raw))
      → t ≡ rust_text raw
      → Parsed parse t m
      → read_metadata out func_name parse i p h s ≡ value m h s
  unfolding read_metadata or_fail is_empty
  read_metadata_lem parse i {p} {o} {raw} {t} ne held e (blank b) =
      rw (==_false p null ne, c_str_to_string_lem p o raw h ne held, ← e, b) refl
  read_metadata_lem parse i {p} {o} {raw} {t} ne held e (parsed full m) =
      rw (==_false p null ne, c_str_to_string_lem p o raw h ne held, ← e)
        (elim (Bool-cases (is_empty t)) [
          | inl b ↦ absurd (full (is_empty-eq t b))
          | inr b ↦ rw (b, m) refl
        ])

  read_document_lem :
      (i : ℕ) {p : Ptr} {o : Owner} {raw t : Text}
      → p ≢ null
      → h.cell p ≡ some (cell_of o (chars raw))
      → t ≡ rust_text raw
      → read_document out func_name i p h s ≡ value (document_of t) h s
  unfolding read_document or_fail document_of
  read_document_lem i {p} {o} {raw} ne held e =
      rw (==_false p null ne, c_str_to_string_lem p o raw h ne held, e) refl

module _ {S : Type 0} (out : Ptr) (func_name : Text) (h : Heap) (s : S) (a : Ptr) (o : Owner)
    (rest : List (Option Ptr)) where
  abbrev Holding : List (Option Ptr) → List Ptr → Type 0
  Holding pre ps = h.cell a ≡ some (cell_of o (pointers (pre ++ (map some ps ++ rest))))

  slot :
      (pre : List (Option Ptr)) (p : Ptr) (ps : List Ptr)
      → Holding pre (p ∷ ps)
      → read_slot a (length pre) h ≡ done p h
  slot pre p ps at =
      read_slot_lem a (length pre) p o (pre ++ some p ∷ (map some ps ++ rest)) h at
        (get_elem?-append pre _ _)

  collect_embeddings_lem :
      (dim : ℕ) (pre : List (Option Ptr)) (acc : List (List F32)) {ps : List Ptr}
      (vs : List (List F32))
      → Vectors h.cell dim ps (map some vs)
      → Holding pre ps
      → collect_embeddings out func_name a dim (length pre) (length ps) acc h s
        ≡ value (acc ++ vs) h s
  unfolding collect_embeddings
  collect_embeddings_lem dim pre acc [] nil at = rw append-nil refl
  collect_embeddings_lem dim pre acc (v ∷ vs) (vector {p} {ps} o' _ rest' ne held len more) at =
      rw (slot pre p ps at, ==_false p null ne, c_array_to_vec_f32_lem h p o' v rest' ne held len)
        (rw length-snoc at (
            collect_embeddings_lem dim (pre ++ some p ∷ []) (acc ++ v ∷ []) vs more
              (rw append-cons at))
          ∙ ap (λ l. value l h s) (append-cons acc v vs))

  collect_metadatas_lem :
      {M : Type 0} (parse : Text → Result M) (pre : List (Option Ptr)) (acc : List (Option M))
      {ps : List Ptr} {ts : List Text} {ms : List (Option M)}
      → Strings h.cell ps ts
      → Forall₂ (Parsed parse) ts ms
      → Holding pre ps
      → collect_metadatas out func_name parse a (length pre) (length ps) acc h s
        ≡ value (acc ++ ms) h s
  unfolding collect_metadatas read_metadata
  collect_metadatas_lem parse pre acc Strings.nil Forall₂.nil at = rw append-nil refl
  collect_metadatas_lem parse pre acc (no_text {ps} e more) (Forall₂.cons (parsed full m) all) at =
      absurd (full e)
  collect_metadatas_lem parse pre acc (no_text {ps} e more) (Forall₂.cons {l₂ = ms} (blank e') all)
        at =
      rw (slot pre null ps at) (
        rw length-snoc at (
          collect_metadatas_lem parse (pre ++ some null ∷ []) (acc ++ none ∷ []) more all
            (rw append-cons at))
        ∙ ap (λ l. value l h s) (append-cons acc none ms))
  collect_metadatas_lem parse pre acc (text {p} {ps} ne held e more)
        (Forall₂.cons {b = m} {l₂ = ms} pm all) at =
      rw
        (
          slot pre p ps at,
          read_metadata_lem out func_name {h = h} s parse (length pre) ne held e pm,
        )
        (rw length-snoc at (
            collect_metadatas_lem parse (pre ++ some p ∷ []) (acc ++ m ∷ []) more all
              (rw append-cons at))
          ∙ ap (λ l. value l h s) (append-cons acc m ms))

  collect_documents_lem :
      (pre : List (Option Ptr)) (acc : List (Option Text)) {ps : List Ptr} {ts : List Text}
      → Strings h.cell ps ts
      → Holding pre ps
      → collect_documents out func_name a (length pre) (length ps) acc h s
        ≡ value (acc ++ map document_of ts) h s
  unfolding collect_documents read_document
  collect_documents_lem pre acc Strings.nil at = rw append-nil refl
  collect_documents_lem pre acc (no_text {ps} {ts} {t} e more) at =
      rw (slot pre null ps at, ← document_of-blank t e)
        (rw length-snoc at (
            collect_documents_lem (pre ++ some null ∷ []) (acc ++ none ∷ []) more
              (rw append-cons at))
          ∙ ap (λ l. value l h s) (append-cons acc none (map document_of ts)))
  collect_documents_lem pre acc (text {p} {ps} {o = o'} {raw} {t} {ts} ne held e more) at =
      rw (slot pre p ps at, read_document_lem out func_name {h = h} s (length pre) ne held e)
        (rw length-snoc at (
            collect_documents_lem (pre ++ some p ∷ []) (acc ++ document_of t ∷ []) more
              (rw append-cons at))
          ∙ ap (λ l. value l h s) (append-cons acc (document_of t) (map document_of ts)))

module _ {S : Type 0} (out : Ptr) (func_name : Text) {h : Heap} (s : S) where
  pub read_embeddings_lem :
      {p : Ptr} {n dim : ℕ} (vs : List (List F32))
      → IsVectors h p n dim (map some vs)
      → p ≢ null
      → read_embeddings out func_name p dim n h s ≡ value vs h s
  unfolding read_embeddings
  read_embeddings_lem vs (no_vectors e) ne = absurd (ne e)
  read_embeddings_lem {p} {dim} vs (vectors_at ps ne arr len held) _ =
      rw (==_false p null ne, ← len)
        (collect_embeddings_lem out func_name h s p arr.owner arr.rest dim [] [] vs held arr.holds)

  pub read_metadatas_lem :
      {M : Type 0} (parse : Text → Result M) {p : Ptr} {n : ℕ} {ts : List Text}
      {m : Option (List (Option M))}
      → IsTexts h p n ts
      → Given p (Forall₂ (Parsed parse) ts) m
      → read_metadatas out func_name parse p n h s ≡ value m h s
  unfolding read_metadatas
  read_metadatas_lem parse is_ts (not_passed e) = rw e refl
  read_metadatas_lem parse (no_texts e) (passed ne all) = absurd (ne e)
  read_metadatas_lem parse {p} (texts_at ps _ arr len held) (passed ne all) =
      rw
        (
          ==_false p null ne,
          ← len,
          collect_metadatas_lem out func_name h s p arr.owner arr.rest parse [] [] held all
              arr.holds,
        )
        refl

  pub read_documents_lem :
      {p : Ptr} {n : ℕ} {ts : List Text} {d : Option (List (Option Text))}
      → IsTexts h p n ts
      → Given p (λ l. l ≡ map document_of ts) d
      → read_documents out func_name p n h s ≡ value d h s
  unfolding read_documents
  read_documents_lem is_ts (not_passed e) = rw e refl
  read_documents_lem (no_texts e) (passed ne all) = absurd (ne e)
  read_documents_lem {p} (texts_at ps _ arr len held) (passed ne all) =
      rw
        (
          ==_false p null ne,
          ← len,
          collect_documents_lem out func_name h s p arr.owner arr.rest [] [] held arr.holds,
          all,
        )
        refl
