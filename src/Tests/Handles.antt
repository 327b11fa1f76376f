-- ===== src/Tests/Handles.antt =====
-- Calls in the memory of `Setup` that hand something over.
use chroma_db_net.Prelude.{◌≡◌, refl, inl, true, some, none, [], ascii, arith}
use chroma_db_net.Memory.{Heap, rust, caller, word}
use chroma_db_net.Memory.Structs.{null, success}
use chroma_db_net.Ffi.{return}
use chroma_db_net.Client.{chroma_get_database}
use chroma_db_net.Client.Databases.{IdDelivered}
use chroma_db_net.Client.Accepted.{get_database_succeeds}
use chroma_db_net.Utils.{default_tenant, default_database}
use chroma_db_net.Collection.Management.{chroma_get_collection, chroma_create_collection}
use chroma_db_net.Collection.Management.Ends.{HandleDelivered}
use chroma_db_net.Collection.Management.Create.{no_json, json, converted}
use chroma_db_net.Collection.Management.Accepted.{get_collection_succeeds}
use chroma_db_net.Collection.Management.Created.{create_collection_succeeds}
use chroma_db_net.Tests.Setup.{service, a_client, memory, memory-IsHeap, error_place, is_main}

get_database_succeeds_example :
    (h' : Heap) × (chroma_get_database service 1 5 null 4 3 memory [] ≡ return success h' [])
    × IdDelivered service memory 4 3 (ascii "main") h'
get_database_succeeds_example =
    get_database_succeeds service [] [] error_place (omega arith) refl is_main (inl (refl, refl))
      {id_result = 4} {ow = caller} {old = word 0} (ascii "main") (ascii "main") (ascii "main")
      memory-IsHeap (omega arith) refl refl refl refl

get_collection_succeeds_example :
    (h' : Heap) × (chroma_get_collection service 1 5 null null 4 3 memory [] ≡ return success h' [])
    × HandleDelivered service memory 4 3 default_tenant default_database (ascii "main") h'
get_collection_succeeds_example =
    get_collection_succeeds service {o = rust} {ow = caller} {c = a_client} {old = word 0} [] []
      default_database (ascii "main") (ascii "main") memory-IsHeap error_place (omega arith) refl
      (omega arith) refl (is_main, inl (refl, refl), inl (refl, refl), refl) refl refl

create_collection_succeeds_example :
    (h' : Heap) × (chroma_create_collection service 1 5 5 null true null null 4 3 memory []
      ≡ return success h' [])
    × HandleDelivered service memory 4 3 default_tenant default_database (ascii "main") h'
create_collection_succeeds_example =
    create_collection_succeeds service {o = rust} {ow = caller} {c = a_client} {old = word 0} [] []
      true (some (ascii "main")) none (some (ascii "main")) default_database (ascii "main")
      (ascii "main") memory-IsHeap error_place (omega arith) refl (omega arith) refl
      (is_main, inl (refl, refl), inl (refl, refl), refl) (json is_main refl) (no_json refl)
      (converted refl) refl refl
