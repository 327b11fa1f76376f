-- ===== src/Tests/Lifetime.antt =====
-- The heartbeat and the end of the handles in the memory of `Setup`.
use chroma_db_net.Prelude.{◌≡◌, refl, none, List, [], Text, arith}
use chroma_db_net.Memory.{Heap, write}
use chroma_db_net.Memory.Structs.{success}
use chroma_db_net.Ffi.{Outcome, return}
use chroma_db_net.Ffi.Replies.{Cleared}
use chroma_db_net.Client.{chroma_heartbeat, chroma_destroy_client}
use chroma_db_net.Client.Lifetime.{Beats, heartbeat-Beats, destroy_client_once}
use chroma_db_net.Collection.Management.{chroma_destroy_collection}
use chroma_db_net.Collection.Management.Lifetime.{destroy_collection_once}
use chroma_db_net.Tests.Setup.{
  service, a_client, a_collection, memory, memory-IsHeap, error_place, result_place,
}

heartbeat-Beats_example : Beats service memory [] 1 4 3 (chroma_heartbeat service 1 4 3 memory [])
heartbeat-Beats_example =
    heartbeat-Beats service memory [] 1 4 3 memory-IsHeap error_place result_place

destroy_client_once_example :
    (h' : Heap) × (chroma_destroy_client service 1 3 memory [] ≡ return success h' [])
    × Cleared 3 (write memory 1 none) h'
    × ((t : List Text) → chroma_destroy_client service 1 3 h' t ≡ Outcome.fault)
destroy_client_once_example =
    destroy_client_once service memory [] a_client 1 3 error_place (omega arith) (omega arith) refl

destroy_collection_once_example :
    (h' : Heap) × (chroma_destroy_collection 2 3 memory tt ≡ return success h' tt)
    × Cleared 3 (write memory 2 none) h'
    × ((t : Unit {0}) → chroma_destroy_collection 2 3 h' t ≡ Outcome.fault)
destroy_collection_once_example =
    destroy_collection_once memory tt a_collection 2 3 error_place (omega arith) (omega arith) refl
