-- ===== src/Tests/Handlers.antt =====
-- The handlers on the arguments in the memory of `Setup`.
use chroma_db_net.Prelude.{true, [], ◌∷◌, Text, ascii}
use chroma_db_net.Memory.Structs.{internal_error, not_found, null}
use chroma_db_net.Ffi.Replies.{Ends, Cleared}
use chroma_db_net.Client.{chroma_create_database, chroma_get_database, chroma_delete_database}
use chroma_db_net.Client.Databases.{
  CreateDatabaseSent, GetDatabaseSent, DeleteDatabaseSent, create_database-Ends, get_database-Ends,
  delete_database-Ends, IdDelivered,
}
use chroma_db_net.Collection.Writes.{chroma_add, chroma_update, chroma_upsert, chroma_delete}
use chroma_db_net.Collection.Writes.Ends.{AddSent, add-Ends}
use chroma_db_net.Collection.Writes.Update.{UpdateSent, update-Ends}
use chroma_db_net.Collection.Writes.Upsert.{UpsertSent, upsert-Ends}
use chroma_db_net.Collection.Writes.Delete.{DeleteSent, delete-Ends}
use chroma_db_net.Collection.Reads.{chroma_count}
use chroma_db_net.Collection.Reads.Count.{CountSent, WordDelivered, count-Ends}
use chroma_db_net.Utils.{default_tenant, default_database}
use chroma_db_net.Ffi.Texts.{TextOr}
use chroma_db_net.Collection.Management.{chroma_create_collection, chroma_get_collection}
use chroma_db_net.Collection.Management.Ends.{
  HandleDelivered, GetCollectionSent, get_collection-Ends,
}
use chroma_db_net.Collection.Management.Create.{CreateCollectionSent, create_collection-Ends}
use chroma_db_net.Tests.Setup.{
  one, ids, service, a_client, a_collection, memory, memory-IsHeap, error_place, result_place,
  a_client-IsClient, a_collection-IsCollection, the_name, no_string,
}

add-Ends_example :
    Ends 3
      (ascii "chroma_add")
      memory
      internal_error
      []
      (AddSent service one a_client a_collection [])
      (λ _ h'. Cleared 3 memory h')
      (chroma_add service 1 2 6 1 9 2 null 6 3 memory [])
add-Ends_example =
    add-Ends service memory [] a_client a_collection 1 2 1 2 6 9 null 6 3 memory-IsHeap error_place
      a_client-IsClient a_collection-IsCollection one

create_database-Ends_example :
    Ends 3
      (ascii "chroma_create_database")
      memory
      internal_error
      []
      (CreateDatabaseSent service memory a_client 5 null [])
      (λ _ h'. Cleared 3 memory h')
      (chroma_create_database service 1 5 null 3 memory [])
create_database-Ends_example =
    create_database-Ends service memory [] a_client 1 5 null 3 memory-IsHeap error_place
      a_client-IsClient the_name no_string

get_database-Ends_example :
    Ends 3
      (ascii "chroma_get_database")
      memory
      not_found
      []
      (GetDatabaseSent service memory a_client 5 null [])
      (IdDelivered service memory 4 3)
      (chroma_get_database service 1 5 null 4 3 memory [])
get_database-Ends_example =
    get_database-Ends service memory [] a_client 1 5 null 4 3 memory-IsHeap error_place result_place
      a_client-IsClient the_name no_string

delete_database-Ends_example :
    Ends 3
      (ascii "chroma_delete_database")
      memory
      internal_error
      []
      (DeleteDatabaseSent service memory a_client 5 null [])
      (λ _ h'. Cleared 3 memory h')
      (chroma_delete_database service 1 5 null 3 memory [])
delete_database-Ends_example =
    delete_database-Ends service memory [] a_client 1 5 null 3 memory-IsHeap error_place
      a_client-IsClient the_name no_string

update-Ends_example :
    Ends 3
      (ascii "chroma_update")
      memory
      internal_error
      []
      (UpdateSent service one a_client a_collection [])
      (λ _ h'. Cleared 3 memory h')
      (chroma_update service 1 2 6 1 9 2 null 6 3 memory [])
update-Ends_example =
    update-Ends service memory [] a_client a_collection 1 2 1 2 6 9 null 6 3 memory-IsHeap
      error_place a_client-IsClient a_collection-IsCollection one

upsert-Ends_example :
    Ends 3
      (ascii "chroma_upsert")
      memory
      internal_error
      []
      (UpsertSent service one a_client a_collection [])
      (λ _ h'. Cleared 3 memory h')
      (chroma_upsert service 1 2 6 1 9 2 null 6 3 memory [])
upsert-Ends_example =
    upsert-Ends service memory [] a_client a_collection 1 2 1 2 6 9 null 6 3 memory-IsHeap
      error_place a_client-IsClient a_collection-IsCollection one

delete-Ends_example :
    Ends 3
      (ascii "chroma_delete")
      memory
      internal_error
      []
      (DeleteSent service memory 1 (ascii "a" ∷ []) 6 null null a_client a_collection [])
      (λ _ h'. Cleared 3 memory h')
      (chroma_delete service 1 2 6 1 null null 3 memory [])
delete-Ends_example =
    delete-Ends service memory [] a_client a_collection 1 (ascii "a" ∷ []) 1 2 6 null null 3
      memory-IsHeap error_place a_client-IsClient a_collection-IsCollection ids no_string no_string

count-Ends_example :
    Ends 3
      (ascii "chroma_count")
      memory
      internal_error
      []
      (CountSent service a_client a_collection [])
      (WordDelivered memory 4 3)
      (chroma_count service 1 2 4 3 memory [])
count-Ends_example =
    count-Ends service memory [] a_client a_collection 1 2 4 3 memory-IsHeap error_place
      result_place a_client-IsClient a_collection-IsCollection

get_collection-Ends_example :
    Ends 3
      (ascii "chroma_get_collection")
      memory
      not_found
      []
      (GetCollectionSent service memory a_client 5 null null [])
      (λ id h'.
        (tenant : Text) × (database : Text) × TextOr memory null default_tenant tenant
        × TextOr memory null default_database database
        × HandleDelivered service memory 4 3 tenant database id h')
      (chroma_get_collection service 1 5 null null 4 3 memory [])
get_collection-Ends_example =
    get_collection-Ends service memory [] a_client 1 5 null null 4 3 memory-IsHeap error_place
      result_place a_client-IsClient the_name no_string no_string

create_collection-Ends_example :
    Ends 3
      (ascii "chroma_create_collection")
      memory
      internal_error
      []
      (CreateCollectionSent service memory a_client 5 null 5 true null null [])
      (λ id h'.
        (tenant : Text) × (database : Text) × TextOr memory null default_tenant tenant
        × TextOr memory null default_database database
        × HandleDelivered service memory 4 3 tenant database id h')
      (chroma_create_collection service 1 5 null 5 true null null 4 3 memory [])
create_collection-Ends_example =
    create_collection-Ends service memory [] a_client true 1 5 null 5 null null 4 3 memory-IsHeap
      error_place result_place a_client-IsClient the_name no_string the_name no_string no_string
