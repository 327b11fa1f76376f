-- ===== src/Client/Databases.antt =====
-- The handlers of databases: when they call the frontend, with what, and what they leave.
use chroma_db_net.Prelude.{◌||◌, ◌≡◌, none, some, ◌==◌, Text, Result, ok, ascii}
use chroma_db_net.Memory.{Heap}
use chroma_db_net.Memory.Laws.{IsHeap}
use chroma_db_net.Memory.Structs.{internal_error, not_found, Ptr, null, ChromaClient}
use chroma_db_net.Utils.{default_tenant}
use chroma_db_net.Error.Reported.{IsOut, TextAt}
use chroma_db_net.Ffi.Replies.{
  Ends, succeeded, argument, validation, IsText, Cleared, Ends-bind, when-Reads, or_fail-Reads,
  some_or_fail-Reads, or_fail-Ends, succeed_lem,
}
use chroma_db_net.Ffi.Texts.{Readable, TextOr, read_text-Reads, read_text_or-Reads}
use chroma_db_net.Ffi.Handles.{IsClient, client-Reads, place-of, or-left, or-right}
use chroma_db_net.Ffi.Delivery.{Delivered, deliver_text}
use chroma_db_net.Error.Texts.{optional_c_str_lem}
use chroma_db_net.Chroma.{Chroma}
use chroma_db_net.Client.{chroma_create_database, chroma_get_database, chroma_delete_database}

module _ (C : Chroma) where
  open C use {State}

  -- The one call that `chroma_create_database` makes, its answer and the state behind it.
  abbrev pub CreateDatabaseSent :
      Heap → ChromaClient → Ptr → Ptr → State → Result (Unit {0}) → State → Type 0
  CreateDatabaseSent h c name_ptr tenant_ptr s reply s' =
      (name : Text) × (tenant : Text) × (db : C.DatabaseName) × (request : C.CreateDatabase)
      × IsText h name_ptr name
      × TextOr h tenant_ptr default_tenant tenant
      × (C.database_name name ≡ some db)
      × (C.new_create_database tenant db ≡ ok request)
      × (C.create_database c.frontend request s ≡ (reply, s'))

  -- On a valid heap, with a null or live client, readable arguments and null or writable places
  -- behind every out pointer, `chroma_create_database` does not fault and ends in one of three
  -- ways. An early error (invalid argument, validation or UUID) leaves the state as it was, and is
  -- reported at `error_out` unless that is null. Otherwise the frontend is called once: the request
  -- holds the checked name and the tenant or its default. If it answers with an error, internal
  -- error is returned, and reported at `error_out` unless that is null; if not, the code is success
  -- and only `*error_out` changed, to null.
  pub create_database-Ends :
      (h : Heap) (s : State) (c : ChromaClient) (handle name_ptr tenant_ptr error_out : Ptr)
      → IsHeap h
      → IsOut h error_out
      → IsClient h handle c
      → Readable h name_ptr
      → Readable h tenant_ptr
      → Ends error_out
          (ascii "chroma_create_database")
          h
          internal_error
          s
          (CreateDatabaseSent h c name_ptr tenant_ptr s)
          (λ _ h'. Cleared error_out h h')
          (chroma_create_database C handle name_ptr tenant_ptr error_out h s)
  unfolding chroma_create_database
  create_database-Ends h s c handle name_ptr tenant_ptr error_out heap is_out cl rn rt =
      Ends-bind _
        (when-Reads func heap is_out s (handle == null || name_ptr == null) _ none argument)
        λ _ ok₁. Ends-bind _ (read_text-Reads func heap is_out s _ rn) λ name is_name.
          Ends-bind _ (read_text_or-Reads func heap is_out s _ _ rt) λ tenant is_tenant.
            Ends-bind _ (client-Reads func s cl (or-left (handle == null) (name_ptr == null) ok₁))
              λ client is_c.
                Ends-bind _
                  (some_or_fail-Reads func heap is_out s _ (C.database_name name) validation)
                  λ db named.
                    Ends-bind _
                      (or_fail-Reads func heap is_out s _ _ (C.new_create_database tenant db)
                        validation)
                      λ request new.
                        or_fail-Ends func heap is_out
                          (C.create_database client.frontend request s).1 _ _ _ _
                          (name, tenant, db, request, is_name, is_tenant, named, new, rw is_c)
                          λ r sent.
                            let (h', eq, clear) =
                              succeed_lem (C.create_database client.frontend request s).1 is_out in
                            rw eq (succeeded r sent clear)
    where
      func : Text
      func = ascii "chroma_create_database"

  abbrev pub DeleteDatabaseSent :
      Heap → ChromaClient → Ptr → Ptr → State → Result (Unit {0}) → State → Type 0
  DeleteDatabaseSent h c name_ptr tenant_ptr s reply s' =
      (name : Text) × (tenant : Text) × (request : C.DeleteDatabase) × IsText h name_ptr name
      × TextOr h tenant_ptr default_tenant tenant
      × (C.new_delete_database tenant name ≡ ok request)
      × (C.delete_database c.frontend request s ≡ (reply, s'))

  -- On a valid heap, with a null or live client, readable arguments and null or writable places
  -- behind every out pointer, `chroma_delete_database` does not fault and ends in one of three
  -- ways. An early error (invalid argument, validation or UUID) leaves the state as it was, and is
  -- reported at `error_out` unless that is null. Otherwise the frontend is called once: the request
  -- holds the name as it is and the tenant or its default. If it answers with an error, internal
  -- error is returned, and reported at `error_out` unless that is null; if not, the code is success
  -- and only `*error_out` changed, to null.
  pub delete_database-Ends :
      (h : Heap) (s : State) (c : ChromaClient) (handle name_ptr tenant_ptr error_out : Ptr)
      → IsHeap h
      → IsOut h error_out
      → IsClient h handle c
      → Readable h name_ptr
      → Readable h tenant_ptr
      → Ends error_out
          (ascii "chroma_delete_database")
          h
          internal_error
          s
          (DeleteDatabaseSent h c name_ptr tenant_ptr s)
          (λ _ h'. Cleared error_out h h')
          (chroma_delete_database C handle name_ptr tenant_ptr error_out h s)
  unfolding chroma_delete_database
  delete_database-Ends h s c handle name_ptr tenant_ptr error_out heap is_out cl rn rt =
      Ends-bind _
        (when-Reads func heap is_out s (handle == null || name_ptr == null) _ none argument)
        λ _ ok₁. Ends-bind _ (read_text-Reads func heap is_out s _ rn) λ name is_name.
          Ends-bind _ (read_text_or-Reads func heap is_out s _ _ rt) λ tenant is_tenant.
            Ends-bind _ (client-Reads func s cl (or-left (handle == null) (name_ptr == null) ok₁))
              λ client is_c.
                Ends-bind _
                  (or_fail-Reads func heap is_out s _ _ (C.new_delete_database tenant name)
                    validation)
                  λ request new.
                    or_fail-Ends func heap is_out (C.delete_database client.frontend request s).1 _
                      _ _ _ (name, tenant, request, is_name, is_tenant, new, rw is_c)
                      λ r sent.
                        let (h', eq, clear) =
                          succeed_lem (C.delete_database client.frontend request s).1 is_out in
                        rw eq (succeeded r sent clear)
    where
      func : Text
      func = ascii "chroma_delete_database"

  abbrev pub GetDatabaseSent :
      Heap → ChromaClient → Ptr → Ptr → State → Result C.Uuid → State → Type 0
  GetDatabaseSent h c name_ptr tenant_ptr s reply s' =
      (name : Text) × (tenant : Text) × (db : C.DatabaseName) × (request : C.GetDatabase) × IsText h
        name_ptr name
      × TextOr h tenant_ptr default_tenant tenant
      × (C.database_name name ≡ some db)
      × (C.new_get_database tenant db ≡ ok request)
      × (C.get_database c.frontend request s ≡ (reply, s'))

  -- The identifier is handed over as a new string, and `*error_out` is cleared after that.
  abbrev pub IdDelivered : Heap → Ptr → Ptr → C.Uuid → Heap → Type 0
  IdDelivered h id_result error_out id h' =
      (k : Heap) × Delivered id_result (λ cell p. TextAt cell p (C.uuid_text id)) h k
      × Cleared error_out k h'

  -- On a valid heap, with a null or live client, readable arguments and null or writable places
  -- behind every out pointer, `chroma_get_database` does not fault and ends in one of three ways.
  -- An early error (invalid argument, validation or UUID) leaves the state as it was, and is
  -- reported at `error_out` unless that is null. Otherwise the frontend is called once: the request
  -- holds the checked name and the tenant or its default. If it answers with an error, not found is
  -- returned, and reported at `error_out` unless that is null; if not, the code is success,
  -- `id_result` points to the identifier as a new string (null if it has a NUL), and `*error_out`
  -- is null.
  pub get_database-Ends :
      (h : Heap) (s : State) (c : ChromaClient)
      (handle name_ptr tenant_ptr id_result error_out : Ptr)
      → IsHeap h
      → IsOut h error_out
      → IsOut h id_result
      → IsClient h handle c
      → Readable h name_ptr
      → Readable h tenant_ptr
      → Ends error_out
          (ascii "chroma_get_database")
          h
          not_found
          s
          (GetDatabaseSent h c name_ptr tenant_ptr s)
          (IdDelivered h id_result error_out)
          (chroma_get_database C handle name_ptr tenant_ptr id_result error_out h s)
  unfolding chroma_get_database
  get_database-Ends h s c handle name_ptr tenant_ptr id_result error_out heap is_out is_result cl rn
        rt =
      Ends-bind _
        (when-Reads func heap is_out s (handle == null || name_ptr == null || id_result == null) _
          none argument)
        λ _ ok₁. Ends-bind _ (read_text-Reads func heap is_out s _ rn) λ name is_name.
          Ends-bind _ (read_text_or-Reads func heap is_out s _ _ rt) λ tenant is_tenant.
            Ends-bind _
              (client-Reads func s cl
                (or-left (handle == null) _ (or-left _ (id_result == null) ok₁)))
              λ client is_c.
                Ends-bind _
                  (some_or_fail-Reads func heap is_out s _ (C.database_name name) validation)
                  λ db named.
                    Ends-bind _
                      (or_fail-Reads func heap is_out s _ _ (C.new_get_database tenant db)
                        validation)
                      λ request new.
                        or_fail-Ends func heap is_out (C.get_database client.frontend request s).1 _
                          _ _ _ (name, tenant, db, request, is_name, is_tenant, named, new, rw is_c)
                          λ id sent.
                            let (o, content, at) =
                              place-of is_result
                                (or-right (handle == null || name_ptr == null) _ ok₁) in
                            let (k, eq, delivered, is_out') =
                              deliver_text heap at is_out (C.uuid_text id) in
                            let (h', eq', clear) =
                              succeed_lem (C.get_database client.frontend request s).1 is_out' in
                            rw (optional_c_str_lem (some (C.uuid_text id)) h, eq, eq')
                              (succeeded id sent (k, delivered, clear))
    where
      func : Text
      func = ascii "chroma_get_database"
