-- ===== src/Tests/Changes.antt =====
-- Calls in the memory of `Setup` that change and delete documents.
use chroma_db_net.Prelude.{◌≡◌, refl, some, none, [], ◌∷◌, ascii, arith, map}
use chroma_db_net.Collection.Arguments.Reading.{document_of}
use chroma_db_net.Memory.{Heap, rust}
use chroma_db_net.Memory.Structs.{null, success}
use chroma_db_net.Ffi.{return}
use chroma_db_net.Ffi.Replies.{Cleared}
use chroma_db_net.Ffi.Texts.{not_given}
use chroma_db_net.Collection.Arguments.Whole.{not_passed, passed, listed, unfiltered}
use chroma_db_net.Collection.Writes.{chroma_update, chroma_delete}
use chroma_db_net.Collection.Writes.Updated.{update_succeeds}
use chroma_db_net.Collection.Writes.Deleted.{delete_succeeds}
use chroma_db_net.Tests.Setup.{service, one, ids, a_client, a_collection, memory, error_place}

update_succeeds_example :
    (h' : Heap) × (chroma_update service 1 2 6 1 9 2 null 6 3 memory [] ≡ return success h' [])
    × Cleared 3 memory h'
update_succeeds_example =
    update_succeeds service {o = rust} {o' = rust} {c = a_client} {col = a_collection} [] []
      (ascii "c1") (some (some (1 ∷ 2 ∷ []) ∷ [])) none (some (map document_of (ascii "a" ∷ [])))
      (ascii "a" ∷ []) one error_place (omega arith) (omega arith) refl refl (omega arith)
      (omega arith) (passed (omega arith) refl) (not_passed refl) (passed (omega arith) refl) refl
      refl refl

delete_succeeds_example :
    (h' : Heap) × (chroma_delete service 1 2 6 1 null null 3 memory (ascii "a" ∷ [])
      ≡ return success h' [])
    × Cleared 3 memory h'
delete_succeeds_example =
    delete_succeeds service {o = rust} {o' = rust} {c = a_client} {col = a_collection}
      (ascii "a" ∷ []) [] (ascii "c1") (some (ascii "a" ∷ [])) none none none
      (some (ascii "a" ∷ [])) error_place (omega arith) (omega arith) refl refl refl ids
      (listed (omega arith) (omega arith)) (not_given refl) (not_given refl)
      (unfiltered refl refl refl) refl refl refl
