-- ===== src/Tests/Success.antt =====
-- Calls in the memory of `Setup` that succeed.
use chroma_db_net.Prelude.{
  true, false, ◌≡◌, refl, inl, some, none, [], ◌∷◌, Text, ok, ascii, arith, map,
}
use chroma_db_net.Memory.{query_result, pointer, write, word, cell_of, Heap, rust, caller}
use chroma_db_net.Memory.Structs.{null, success}
use chroma_db_net.Ffi.{return}
use chroma_db_net.Ffi.Replies.{Cleared}
use chroma_db_net.Collection.Arguments.Reading.{document_of}
use chroma_db_net.Collection.Arguments.Whole.{not_passed, passed}
use chroma_db_net.Collection.Writes.{chroma_add, chroma_upsert}
use chroma_db_net.Collection.Writes.Accepted.{IsReady, add_succeeds, upsert_succeeds}
use chroma_db_net.Collection.Writes.{chroma_delete}
use chroma_db_net.Collection.Writes.Unlisted.{delete_unlisted}
use chroma_db_net.Collection.Reads.{chroma_count}
use chroma_db_net.Collection.Reads.Counted.{count_succeeds}
use chroma_db_net.Client.{chroma_create_database, chroma_delete_database}
use chroma_db_net.Client.Accepted.{create_database_succeeds, delete_database_succeeds}
use chroma_db_net.Error.Reported.{place}
use chroma_db_net.Ffi.Delivery.{Delivered}
use chroma_db_net.Collection.Results.{empty_result}
use chroma_db_net.Collection.Reads.{chroma_get, include_of_get}
use chroma_db_net.Collection.Reads.Exhausted.{get_exhausted}
use chroma_db_net.Tests.Setup.{
  is_main, exhausted, exhausted-IsHeap, service, one, a_client, a_collection, memory, error_place,
}

prepared : IsReady memory 1 2 1 2 6 9 null 6 {M = Text} ok
prepared = record {
  some_client = a_client;
  some_collection = a_collection;
  client_owner = rust;
  collection_owner = rust;
  client_ne = omega arith;
  collection_ne = omega arith;
  client_at = refl;
  collection_at = refl;
  records = one;
  not_empty = omega arith;
  ids_ne = omega arith;
  embeddings_ne = omega arith;
  all_vectors = (1 ∷ 2 ∷ []) ∷ [];
  vectors_eq = refl;
  parsed_metadatas = none;
  parsed_eq = not_passed refl;
  read_texts = some (map document_of (ascii "a" ∷ []));
  texts_eq = passed (omega arith) refl;
}

add_succeeds_example :
    (h' : Heap) × (chroma_add service 1 2 6 1 9 2 null 6 3 memory []
      ≡ return success h' (ascii "a" ∷ []))
    × Cleared 3 memory h'
unfolding prepared
add_succeeds_example =
    add_succeeds service [] (ascii "a" ∷ []) error_place prepared (ascii "c1") (ascii "a" ∷ []) refl
      refl refl

upsert_succeeds_example :
    (h' : Heap) × (chroma_upsert service 1 2 6 1 9 2 null 6 3 memory []
      ≡ return success h' (ascii "a" ∷ []))
    × Cleared 3 memory h'
unfolding prepared
upsert_succeeds_example =
    upsert_succeeds service [] (ascii "a" ∷ []) error_place prepared (ascii "c1") (ascii "a" ∷ [])
      refl refl refl

create_database_succeeds_example :
    (h' : Heap) × (chroma_create_database service 1 5 null 3 memory []
      ≡ return success h' (ascii "main" ∷ []))
    × Cleared 3 memory h'
create_database_succeeds_example =
    create_database_succeeds service [] (ascii "main" ∷ []) error_place (omega arith) refl is_main
      (inl (refl, refl)) (ascii "main") (ascii "main") refl refl refl

delete_database_succeeds_example :
    (h' : Heap) × (chroma_delete_database service 1 5 null 3 memory [] ≡ return success h' [])
    × Cleared 3 memory h'
delete_database_succeeds_example =
    delete_database_succeeds service [] [] error_place (omega arith) refl is_main (inl (refl, refl))
      (ascii "main") refl refl

delete_unlisted_example :
    (h' : Heap) × (chroma_delete service 1 2 6 0 null null 3 memory (ascii "a" ∷ [])
      ≡ return success h' [])
    × Cleared 3 memory h'
delete_unlisted_example =
    delete_unlisted service {o = rust} {o' = rust} {c = a_client} {col = a_collection}
      (ascii "a" ∷ []) [] (ascii "c1") none error_place (omega arith) (omega arith) refl refl
      (omega arith) refl refl refl

count_succeeds_example :
    (h' : Heap) × (chroma_count service 1 2 4 3 memory (ascii "a" ∷ [])
      ≡ return success h' (ascii "a" ∷ []))
    × Cleared 3 (write memory 4 (some (cell_of caller (word 1)))) h'
count_succeeds_example =
    count_succeeds service {o = rust} {o' = rust} {ow = caller} {c = a_client} {col = a_collection}
      {old = word 0} (ascii "a" ∷ []) (ascii "a" ∷ []) (ascii "c1") (ascii "c1") 1 error_place
      (omega arith) (omega arith) (omega arith) refl refl refl refl refl refl

get_exhausted_example :
    (k h' : Heap) × (chroma_get service 1 2 null 0 null null 5 0 false true true 4 3 exhausted
        (ascii "a" ∷ [])
      ≡ return success h' (ascii "a" ∷ []))
    × Delivered 4 (λ cell p. cell p ≡ some (cell_of rust (query_result empty_result))) exhausted k
    × Cleared 3 k h'
get_exhausted_example =
    get_exhausted service {o = rust} {o' = rust} {ow = caller} {c = a_client} {col = a_collection}
      {old = word 0} (ascii "a" ∷ []) (ascii "a" ∷ []) (ascii "c1") 0 5 0 false true true
      (include_of_get false true true) (include_of_get false true true)
      (record { ids = ascii "a" ∷ []; metadatas = none; documents = some (some (ascii "a") ∷ []) })
      exhausted-IsHeap (λ p. refl) (place {o = caller} {c = pointer null} (omega arith) refl)
      (omega arith) (omega arith) (omega arith) refl refl refl refl refl refl refl
