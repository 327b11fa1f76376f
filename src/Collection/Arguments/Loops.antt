-- ===== src/Collection/Arguments/Loops.antt =====
-- The loops over the arrays of the document functions, from any element on.
use mathlib.Core.List.{append-nil, Forall₂}
use chroma_db_net.Prelude.{
  ℕ, ◌≡◌, refl, ap, ◌∙◌, Option, none, some, List, [], ◌∷◌, ◌++◌, map, Text, Result, length,
  length-snoc, get_elem?-append, append-cons, ==_false,
}
use chroma_db_net.Memory.{Heap, cell_of, Owner, pointers}
use chroma_db_net.Memory.Laws.{IsHeap, read_slot_lem}
use chroma_db_net.Memory.Structs.{Ptr, null, F32}
use chroma_db_net.Utils.Reading.{Strings, no_text, text}
use chroma_db_net.Error.Reported.{IsOut}
use chroma_db_net.Ffi.Replies.{Reads, got, argument, fail-Reads, Reads-bind, Reads-mono}
use chroma_db_net.Collection.Arguments.{
  collect_embeddings, collect_optional_embeddings, collect_metadatas, collect_documents,
}
use chroma_db_net.Collection.Arguments.Reading.{
  Vectors, nil, no_vector, vector, Parsed, blank, document_of, document_of-blank,
  c_array_to_vec_f32_lem, read_metadata-Reads, read_document-Reads, read_metadata-null,
  read_document-null,
}

module _ {S : Type 0} {out : Ptr} (func_name : Text) {h : Heap} (heap : IsHeap h)
    (is_out : IsOut h out) (s : S) (a : Ptr) (o : Owner) (rest : List (Option Ptr)) where
  -- An array whose elements from `length pre` on are the given pointers.
  abbrev Holding : List (Option Ptr) → List Ptr → Type 0
  Holding pre ps = h.cell a ≡ some (cell_of o (pointers (pre ++ (map some ps ++ rest))))

  pub collect_embeddings-Reads :
      (dim : ℕ) (pre : List (Option Ptr)) (acc : List (List F32)) {ps : List Ptr}
      {vs : List (Option (List F32))}
      → Vectors h.cell dim ps vs
      → Holding pre ps
      → Reads out func_name h s
          (λ r. (v : List (List F32)) × (r ≡ acc ++ v) × (map some v ≡ vs))
          (collect_embeddings out func_name a dim (length pre) (length ps) acc h s)
  unfolding collect_embeddings
  collect_embeddings-Reads dim pre acc nil at = got ([], rw append-nil, refl)
  collect_embeddings-Reads dim pre acc (no_vector {ps} more) at =
      rw
        (read_slot_lem a (length pre) null o (pre ++ some null ∷ (map some ps ++ rest)) h at
          (get_elem?-append pre _ _))
        (Reads-bind _ (fail-Reads func_name heap is_out s _ _ argument) (λ _ (e : ⊥). absurd e))
  collect_embeddings-Reads dim pre acc (vector {p} {ps} o' v rest' ne held len more) at =
      rw
        (
          read_slot_lem a (length pre) p o (pre ++ some p ∷ (map some ps ++ rest)) h at
              (get_elem?-append pre _ _),
          ==_false p null ne,
          c_array_to_vec_f32_lem h p o' v rest' ne held len,
        )
        (Reads-mono
          (rw length-snoc at (
            collect_embeddings-Reads dim (pre ++ some p ∷ []) (acc ++ v ∷ []) more
              (rw append-cons at)))
          (λ r (vs', e, m). (v ∷ vs', e ∙ append-cons acc v vs', ap (λ l. some v ∷ l) m)))

  pub collect_optional_embeddings-Reads :
      (dim : ℕ) (pre : List (Option Ptr)) (acc : List (Option (List F32))) {ps : List Ptr}
      {vs : List (Option (List F32))}
      → Vectors h.cell dim ps vs
      → Holding pre ps
      → Reads out func_name h s
          (λ r. r ≡ acc ++ vs)
          (collect_optional_embeddings out func_name a dim (length pre) (length ps) acc h s)
  unfolding collect_optional_embeddings
  collect_optional_embeddings-Reads dim pre acc nil at = got (rw append-nil)
  collect_optional_embeddings-Reads dim pre acc (no_vector {ps} {vs} more) at =
      rw
        (read_slot_lem a (length pre) null o (pre ++ some null ∷ (map some ps ++ rest)) h at
          (get_elem?-append pre _ _))
        (Reads-mono
          (rw length-snoc at (
            collect_optional_embeddings-Reads dim (pre ++ some null ∷ []) (acc ++ none ∷ []) more
              (rw append-cons at)))
          (λ r e. e ∙ append-cons acc none vs))
  collect_optional_embeddings-Reads dim pre acc (vector {p} {ps} o' v rest' {vs} ne held len more)
        at =
      rw
        (
          read_slot_lem a (length pre) p o (pre ++ some p ∷ (map some ps ++ rest)) h at
              (get_elem?-append pre _ _),
          ==_false p null ne,
          c_array_to_vec_f32_lem h p o' v rest' ne held len,
        )
        (Reads-mono
          (rw length-snoc at (
            collect_optional_embeddings-Reads dim (pre ++ some p ∷ []) (acc ++ some v ∷ []) more
              (rw append-cons at)))
          (λ r e. e ∙ append-cons acc (some v) vs))

  pub collect_metadatas-Reads :
      {M : Type 0} (parse : Text → Result M) (pre : List (Option Ptr)) (acc : List (Option M))
      {ps : List Ptr} {ts : List Text}
      → Strings h.cell ps ts
      → Holding pre ps
      → Reads out func_name h s
          (λ r. (ms : List (Option M)) × (r ≡ acc ++ ms) × Forall₂ (Parsed parse) ts ms)
          (collect_metadatas out func_name parse a (length pre) (length ps) acc h s)
  unfolding collect_metadatas
  collect_metadatas-Reads parse pre acc Strings.nil at = got ([], rw append-nil, Forall₂.nil)
  collect_metadatas-Reads {M} parse pre acc (no_text {ps} {ts} {t} e more) at =
      rw
        (
          read_slot_lem a (length pre) null o (pre ++ some null ∷ (map some ps ++ rest)) h at
              (get_elem?-append pre _ _),
          read_metadata-null func_name heap is_out s parse (length pre),
        )
        (Reads-mono
          (rw length-snoc at (
            collect_metadatas-Reads parse (pre ++ some null ∷ []) (acc ++ none ∷ []) more
              (rw append-cons at)))
          (λ r (ms, e', all).
            (none ∷ ms, e' ∙ append-cons acc none ms, Forall₂.cons (blank e) all)))
  collect_metadatas-Reads {M} parse pre acc (text {p} {ps} {o = o'} {raw} {t} {ts} ne held e more)
        at =
      rw
        (read_slot_lem a (length pre) p o (pre ++ some p ∷ (map some ps ++ rest)) h at
          (get_elem?-append pre _ _))
        (Reads-bind _ (read_metadata-Reads func_name heap is_out s parse (length pre) ne held e)
          (λ m pm.
            Reads-mono
              (rw length-snoc at (
                collect_metadatas-Reads parse (pre ++ some p ∷ []) (acc ++ m ∷ []) more
                  (rw append-cons at)))
              (λ r (ms, e', all). (m ∷ ms, e' ∙ append-cons acc m ms, Forall₂.cons pm all))))

  pub collect_documents-Reads :
      (pre : List (Option Ptr)) (acc : List (Option Text)) {ps : List Ptr} {ts : List Text}
      → Strings h.cell ps ts
      → Holding pre ps
      → Reads out func_name h s
          (λ r. r ≡ acc ++ map document_of ts)
          (collect_documents out func_name a (length pre) (length ps) acc h s)
  unfolding collect_documents
  collect_documents-Reads pre acc Strings.nil at = got (rw append-nil)
  collect_documents-Reads pre acc (no_text {ps} {ts} {t} e more) at =
      rw
        (
          read_slot_lem a (length pre) null o (pre ++ some null ∷ (map some ps ++ rest)) h at
              (get_elem?-append pre _ _),
          read_document-null func_name heap is_out s (length pre),
        )
        (Reads-mono
          (rw length-snoc at (
            collect_documents-Reads (pre ++ some null ∷ []) (acc ++ none ∷ []) more
              (rw append-cons at)))
          (λ r e'.
            e'
            ∙ append-cons acc none _
            ∙ ap (λ d. acc ++ d ∷ map document_of ts) (document_of-blank t e)))
  collect_documents-Reads pre acc (text {p} {ps} {o = o'} {raw} {t} {ts} ne held e more) at =
      rw
        (read_slot_lem a (length pre) p o (pre ++ some p ∷ (map some ps ++ rest)) h at
          (get_elem?-append pre _ _))
        (Reads-bind _ (read_document-Reads func_name heap is_out s (length pre) ne held e) (λ d pd.
          Reads-mono
            (rw length-snoc at (
              collect_documents-Reads (pre ++ some p ∷ []) (acc ++ d ∷ []) more
                (rw append-cons at)))
            (λ r e'. e' ∙ append-cons acc d _ ∙ ap (λ x. acc ++ x ∷ map document_of ts) pd)))
