-- ===== src/Collection/Results/Exhausted.antt =====
-- What becomes of a response when `malloc` has nothing left.
use chroma_db_net.Prelude.{
  suc, ◌+◌, ◌≤◌, ◌≡◌, refl, true, Option, none, some, List, [], ◌∷◌, map, Text, Result, ==_false,
  arith, length,
}
use chroma_db_net.Memory.{Heap, done, malloc}
use chroma_db_net.Memory.Structs.{Ptr, null}
use chroma_db_net.Utils.{vec_string_to_c_array}
use chroma_db_net.Chroma.{GetResponse}
use chroma_db_net.Collection.Results.{
  empty_result, metadata_string, document_string, set_ids, set_metadatas, set_documents,
  put_metadatas, put_documents, marshal_get,
}

-- `malloc` returns null from now on.
abbrev pub IsExhausted : Heap → Type 0
IsExhausted h = (p : Ptr) → h.refuse p ≡ true

-- The heap of before, but for the addresses that were asked for in vain.
abbrev pub later : Heap → Ptr → Heap
later h n = record h { next = n }

vec_string_to_c_array_exhausted :
    (ss : List Text) (h : Heap)
    → IsExhausted h
    → (n : Ptr) × (h.next ≤ n) × (vec_string_to_c_array ss h ≡ done (null, 0) (later h n))
unfolding vec_string_to_c_array malloc
vec_string_to_c_array_exhausted [] h full = (h.next, omega arith, refl)
vec_string_to_c_array_exhausted (s ∷ ss) h full =
    (h.next + 1, omega arith, rw (==_false (suc (length ss)) 0 (omega arith), full h.next) refl)

set_ids_exhausted :
    (ids : List Text) (h : Heap)
    → IsExhausted h
    → (n : Ptr) × (h.next ≤ n) × (set_ids ids empty_result h ≡ done empty_result (later h n))
unfolding set_ids
set_ids_exhausted [] h full = (h.next, omega arith, refl)
set_ids_exhausted (s ∷ ss) h full =
    let (n, le, eq) = vec_string_to_c_array_exhausted (s ∷ ss) h full in (n, le, rw eq refl)

set_metadatas_exhausted :
    {M : Type 0} (print : M → Result Text) (ms : Option (List (Option M))) (h : Heap)
    → IsExhausted h
    → (n : Ptr) × (h.next ≤ n)
      × (set_metadatas print ms empty_result h ≡ done empty_result (later h n))
unfolding set_metadatas put_metadatas
set_metadatas_exhausted print none h full = (h.next, omega arith, refl)
set_metadatas_exhausted print (some []) h full = (h.next, omega arith, refl)
set_metadatas_exhausted print (some (m ∷ ms)) h full =
    let (n, le, eq) =
      vec_string_to_c_array_exhausted (map (metadata_string print) (m ∷ ms)) h full in
    (n, le, rw eq refl)

set_documents_exhausted :
    (ds : Option (List (Option Text))) (h : Heap)
    → IsExhausted h
    → (n : Ptr) × (h.next ≤ n) × (set_documents ds empty_result h ≡ done empty_result (later h n))
unfolding set_documents put_documents
set_documents_exhausted none h full = (h.next, omega arith, refl)
set_documents_exhausted (some []) h full = (h.next, omega arith, refl)
set_documents_exhausted (some (d ∷ ds)) h full =
    let (n, le, eq) = vec_string_to_c_array_exhausted (map document_string (d ∷ ds)) h full in
    (n, le, rw eq refl)

-- Whatever was found, the result is empty.
pub marshal_get_exhausted :
    {M : Type 0} (print : M → Result Text) (response : GetResponse M) (h : Heap)
    → IsExhausted h
    → (n : Ptr) × (h.next ≤ n) × (marshal_get print response h ≡ done empty_result (later h n))
unfolding marshal_get
marshal_get_exhausted print response h full =
    let (n, le, eq) = set_ids_exhausted response.ids h full in
    let (n', le', eq') = set_metadatas_exhausted print response.metadatas (later h n) full in
    let (n'', le'', eq'') = set_documents_exhausted response.documents (later h n') full in
    (n'', omega (arith, le, le', le''), rw (eq, eq', eq'') refl)
