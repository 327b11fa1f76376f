-- ===== src/Client/Accepted.antt =====
-- The handlers of databases at arguments that are in order: they call the frontend and succeed.
use chroma_db_net.Prelude.{◌≡◌, ◌≢◌, some, refl, ==_false, Text, ok, ascii}
use chroma_db_net.Memory.{Content, Heap, Owner, cell_of, client, as_client}
use chroma_db_net.Memory.Laws.{IsHeap, peek_lem}
use chroma_db_net.Memory.Structs.{Ptr, null, ChromaClient, success}
use chroma_db_net.Utils.{default_tenant}
use chroma_db_net.Error.Reported.{IsOut}
use chroma_db_net.Ffi.{return, or_fail, some_or_fail}
use chroma_db_net.Ffi.Replies.{IsText, Cleared, succeed_lem}
use chroma_db_net.Ffi.Texts.{TextOr}
use chroma_db_net.Ffi.Accepted.{IsText-ne, read_text_lem, read_text_or_lem}
use chroma_db_net.Chroma.{Chroma}
use chroma_db_net.Ffi.Delivery.{deliver_text}
use chroma_db_net.Error.Texts.{optional_c_str_lem}
use chroma_db_net.Client.Databases.{IdDelivered}
use chroma_db_net.Client.{chroma_get_database, chroma_create_database, chroma_delete_database}

module _ (C : Chroma) {h : Heap} {handle name_ptr tenant_ptr error_out : Ptr} {o : Owner}
    {c : ChromaClient} {name tenant : Text} (s s' : C.State) (is_out : IsOut h error_out)
    (ne : handle ≢ null) (at : h.cell handle ≡ some (cell_of o (client c)))
    (is_name : IsText h name_ptr name) (is_tenant : TextOr h tenant_ptr default_tenant tenant) where
  -- With a live client, a name, a tenant or null, and a null or writable `error_out`: if the name
  -- is accepted, the request is made and the frontend creates the database, then
  -- `chroma_create_database` returns success, the state is the frontend's, and only `*error_out`
  -- changed, to null.
  pub create_database_succeeds :
      (db : C.DatabaseName) (request : C.CreateDatabase)
      → C.database_name name ≡ some db
      → C.new_create_database tenant db ≡ ok request
      → C.create_database c.frontend request s ≡ (ok tt, s')
      → (h' : Heap) × (chroma_create_database C handle name_ptr tenant_ptr error_out h s
          ≡ return success h' s')
        × Cleared error_out h h'
  unfolding chroma_create_database or_fail some_or_fail
  create_database_succeeds db request named made sent =
      let (h', eq, clear) = succeed_lem s' is_out in
      (
        h',
        rw
            (
              ==_false handle null ne,
              ==_false name_ptr null (IsText-ne is_name),
              read_text_lem error_out (ascii "chroma_create_database") s _ is_name,
              read_text_or_lem error_out (ascii "chroma_create_database") s _ _ is_tenant,
              peek_lem as_client handle h refl at,
              named,
              made,
              sent,
            )
            eq,
        clear,
      )

  -- With a live client, a name, a tenant or null, and a null or writable `error_out`: if the
  -- request is made and the frontend deletes the database, then `chroma_delete_database` returns
  -- success, the state is the frontend's, and only `*error_out` changed, to null.
  pub delete_database_succeeds :
      (request : C.DeleteDatabase)
      → C.new_delete_database tenant name ≡ ok request
      → C.delete_database c.frontend request s ≡ (ok tt, s')
      → (h' : Heap) × (chroma_delete_database C handle name_ptr tenant_ptr error_out h s
          ≡ return success h' s')
        × Cleared error_out h h'
  unfolding chroma_delete_database or_fail
  delete_database_succeeds request made sent =
      let (h', eq, clear) = succeed_lem s' is_out in
      (
        h',
        rw
            (
              ==_false handle null ne,
              ==_false name_ptr null (IsText-ne is_name),
              read_text_lem error_out (ascii "chroma_delete_database") s _ is_name,
              read_text_or_lem error_out (ascii "chroma_delete_database") s _ _ is_tenant,
              peek_lem as_client handle h refl at,
              made,
              sent,
            )
            eq,
        clear,
      )

  -- On a valid heap, with a live client, a name, a tenant or null, a place at `id_result` and a
  -- null or writable `error_out`: if the name is accepted, the request is made and the frontend
  -- finds the database, then `chroma_get_database` returns success with the frontend's state,
  -- `id_result` points to the identifier as a new string (null if it has a NUL), and `*error_out`
  -- is null.
  pub get_database_succeeds :
      {id_result : Ptr} {ow : Owner} {old : Content} (db : C.DatabaseName) (request : C.GetDatabase)
      (id : C.Uuid)
      → IsHeap h
      → id_result ≢ null
      → h.cell id_result ≡ some (cell_of ow old)
      → C.database_name name ≡ some db
      → C.new_get_database tenant db ≡ ok request
      → C.get_database c.frontend request s ≡ (ok id, s')
      → (h' : Heap) × (chroma_get_database C handle name_ptr tenant_ptr id_result error_out h s
          ≡ return success h' s')
        × IdDelivered C h id_result error_out id h'
  unfolding chroma_get_database or_fail some_or_fail
  get_database_succeeds {id_result} {ow} {old} db request id heap result_ne result_at named made
        sent =
      let (k, poked, delivered, out) =
        deliver_text heap {result = id_result} {o = ow} {c = old} result_at is_out
          (C.uuid_text id) in
      let (h', eq, clear) = succeed_lem s' out in
      (
        h',
        rw
            (
              ==_false handle null ne,
              ==_false name_ptr null (IsText-ne is_name),
              ==_false id_result null result_ne,
              read_text_lem error_out (ascii "chroma_get_database") s _ is_name,
              read_text_or_lem error_out (ascii "chroma_get_database") s _ _ is_tenant,
              peek_lem as_client handle h refl at,
              named,
              made,
              sent,
              optional_c_str_lem (some (C.uuid_text id)) h,
              poked,
            )
            eq,
        (k, delivered, clear),
      )
