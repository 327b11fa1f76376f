-- ===== src/Collection/Management/Create.antt =====
-- `chroma_create_collection`: what it sends to the frontend, and what it leaves.
use chroma_db_net.Prelude.{
  ◌||◌, ◌≡◌, refl, Bool, Option, none, some, ◌==◌, Text, Result, ok, ascii, ==_false,
}
use chroma_db_net.Memory.{Heap, Content, collection, alloc}
use chroma_db_net.Memory.Laws.{IsHeap}
use chroma_db_net.Memory.Structs.{internal_error, Ptr, null, ChromaClient}
use chroma_db_net.Utils.{default_tenant, default_database}
use chroma_db_net.Error.Reported.{IsOut}
use chroma_db_net.Ffi.Replies.{
  Reads, got, Ends, succeeded, argument, validation, IsText, Ends-bind, Reads-bind, when-Reads,
  or_fail-Reads, some_or_fail-Reads, or_fail-Ends, succeed_lem,
}
use chroma_db_net.Ffi.Texts.{
  Readable, TextOr, null_arg, string_arg, read_text-Reads, read_text_or-Reads,
}
use chroma_db_net.Ffi.Handles.{IsClient, client-Reads, or-left, or-right, place-of}
use chroma_db_net.Ffi.Delivery.{deliver_box}
use chroma_db_net.Chroma.{Chroma, KnnIndex}
use chroma_db_net.Collection.Management.{
  read_configuration, read_collection_metadata, convert_configuration, chroma_create_collection,
}
use chroma_db_net.Collection.Management.Ends.{Names, HandleDelivered}

-- JSON that need not be given.
pub data Json {A : Type 0} (h : Heap) (p : Ptr) (parse : Text → Result A) : Option A → Type 0 where
  no_json : p ≡ null → Json h p parse none
  json : {t : Text} {a : A} → IsText h p t → parse t ≡ ok a → Json h p parse (some a)

module _ (C : Chroma) where
  open C use {State}

  module _ {out : Ptr} (func_name : Text) {h : Heap} (heap : IsHeap h) (is_out : IsOut h out)
      (s : State) where
    read_configuration-Reads :
        {p : Ptr}
        → Readable h p
        → Reads out func_name h s
            (Json h p C.parse_configuration)
            (read_configuration C out func_name p h s)
    unfolding read_configuration
    read_configuration-Reads (null_arg e) = rw e (got (no_json refl))
    read_configuration-Reads {p} (string_arg o raw ne at) = rw (==_false p null ne) (
        Reads-bind _ (read_text-Reads func_name heap is_out s _ (string_arg o raw ne at)) λ t is_t.
          Reads-bind _
            (or_fail-Reads func_name heap is_out s _ _ (C.parse_configuration t) validation)
            λ a parsed. got (json is_t parsed))

    read_collection_metadata-Reads :
        {p : Ptr}
        → Readable h p
        → Reads out func_name h s
            (Json h p C.parse_metadata)
            (read_collection_metadata C out func_name p h s)
    unfolding read_collection_metadata
    read_collection_metadata-Reads (null_arg e) = rw e (got (no_json refl))
    read_collection_metadata-Reads {p} (string_arg o raw ne at) = rw (==_false p null ne) (
        Reads-bind _ (read_text-Reads func_name heap is_out s _ (string_arg o raw ne at)) λ t is_t.
          Reads-bind _ (or_fail-Reads func_name heap is_out s _ _ (C.parse_metadata t) validation)
            λ a parsed. got (json is_t parsed))

  -- The frontend's form of a configuration.
  pub data Converted (index : KnnIndex)
      : Option C.Configuration → Option C.InternalConfiguration → Type 0 where
    default : Converted index none none
    converted :
        {c : C.Configuration} {i : C.InternalConfiguration}
        → C.try_from_config c index ≡ ok i
        → Converted index (some c) (some i)

  convert_configuration-Reads :
      {out : Ptr} (func_name : Text) {h : Heap} (heap : IsHeap h) (is_out : IsOut h out) (s : State)
      (index : KnnIndex) (c : Option C.Configuration)
      → Reads out func_name h s
          (Converted index c)
          (convert_configuration C out func_name index c h s)
  unfolding convert_configuration
  convert_configuration-Reads func_name heap is_out s index none = got default
  convert_configuration-Reads func_name heap is_out s index (some c) =
      Reads-bind _
        (or_fail-Reads func_name heap is_out s _ _ (C.try_from_config c index) validation)
        λ i e. got (converted e)

  abbrev pub CreateCollectionSent :
      Heap
      → ChromaClient
      → Ptr
      → Ptr
      → Ptr
      → Bool
      → Ptr
      → Ptr
      → State
      → Result C.Uuid
      → State
      → Type 0
  CreateCollectionSent h c name_ptr config_ptr metadata_ptr get_or_create tenant_ptr database_ptr s
        reply s' =
      (name : Text) × (tenant : Text) × (database : Text) × (db : C.DatabaseName) × (config : Option
        C.Configuration)
      × (metadata : Option C.Metadata) × (internal_config : Option C.InternalConfiguration)
      × (request : C.CreateCollection) × Names C h name_ptr tenant_ptr database_ptr name tenant
          database db
      × Json h config_ptr C.parse_configuration config
      × Json h metadata_ptr C.parse_metadata metadata
      × Converted (C.default_knn_index c.frontend) config internal_config
      × (C.new_create_collection tenant db name metadata internal_config get_or_create ≡ ok request)
      × (C.create_collection c.frontend request s ≡ (reply, s'))

  -- On a valid heap, with a null or live client, readable arguments and null or writable places
  -- behind every out pointer, `chroma_create_collection` does not fault and ends in one of three
  -- ways. An early error (invalid argument, validation or UUID) leaves the state as it was, and is
  -- reported at `error_out` unless that is null. Otherwise the frontend is called once: the request
  -- holds the name, the tenant and the database or their defaults, the parsed metadata, the
  -- converted configuration and the flag. If it answers with an error, internal error is returned,
  -- and reported at `error_out` unless that is null; if not, the code is success,
  -- `collection_handle` points to a new handle with the identifier, tenant and database, where no
  -- block was before, and `*error_out` is null.
  pub create_collection-Ends :
      (h : Heap) (s : State) (c : ChromaClient) (get_or_create : Bool)
      (handle name_ptr config_ptr metadata_ptr tenant_ptr database_ptr collection_handle
        error_out : Ptr)
      → IsHeap h
      → IsOut h error_out
      → IsOut h collection_handle
      → IsClient h handle c
      → Readable h name_ptr
      → Readable h config_ptr
      → Readable h metadata_ptr
      → Readable h tenant_ptr
      → Readable h database_ptr
      → Ends error_out
          (ascii "chroma_create_collection")
          h
          internal_error
          s
          (CreateCollectionSent h c name_ptr config_ptr metadata_ptr get_or_create tenant_ptr
            database_ptr s)
          (λ id h'.
            (tenant : Text) × (database : Text) × TextOr h tenant_ptr default_tenant tenant
            × TextOr h database_ptr default_database database
            × HandleDelivered C h collection_handle error_out tenant database id h')
          (chroma_create_collection C handle name_ptr config_ptr metadata_ptr get_or_create
            tenant_ptr database_ptr collection_handle error_out h s)
  unfolding chroma_create_collection alloc
  create_collection-Ends h s c get_or_create handle name_ptr config_ptr metadata_ptr tenant_ptr
        database_ptr collection_handle error_out heap is_out is_result cl rn rc rm rt rd =
      Ends-bind _
        (when-Reads func heap is_out s
          (handle == null || name_ptr == null || collection_handle == null) _ none argument)
        λ _ checked. Ends-bind _ (read_text-Reads func heap is_out s _ rn) λ name is_name.
          Ends-bind _ (read_text_or-Reads func heap is_out s _ _ rt) λ tenant is_tenant.
            Ends-bind _ (read_text_or-Reads func heap is_out s _ _ rd) λ database is_database.
              Ends-bind _
                (some_or_fail-Reads func heap is_out s _ (C.database_name database) validation)
                λ db named.
                  Ends-bind _ (read_configuration-Reads func heap is_out s rc) λ config is_config.
                    Ends-bind _ (read_collection_metadata-Reads func heap is_out s rm)
                      λ metadata is_metadata.
                        Ends-bind _
                          (client-Reads func s cl (
                            or-left (handle == null) _
                              (or-left _ (collection_handle == null) checked)))
                          λ client is_c.
                            Ends-bind _
                              (convert_configuration-Reads func heap is_out s
                                (C.default_knn_index client.frontend) config)
                              λ inner is_inner.
                                Ends-bind _
                                  (or_fail-Reads func heap is_out s _ _
                                    (C.new_create_collection tenant db name metadata inner
                                      get_or_create)
                                    validation)
                                  λ request new.
                                    or_fail-Ends func heap is_out
                                      (C.create_collection client.frontend request s).1 _ _ _ _
                                      (
                                        name,
                                        tenant,
                                        database,
                                        db,
                                        config,
                                        metadata,
                                        inner,
                                        request,
                                        (is_name, is_tenant, is_database, named),
                                        is_config,
                                        is_metadata,
                                        rw is_c at is_inner,
                                        new,
                                        rw is_c,
                                      )
                                      λ id sent.
                                        let made : Content = collection (record {
                                          id = C.uuid_text id;
                                          tenant = tenant;
                                          database = database;
                                        }) in
                                        let (o, content, at) = place-of is_result (
                                          or-right (handle == null || name_ptr == null) _
                                            checked) in
                                        let (k, eq, delivered, is_out') =
                                          deliver_box heap at is_out made in
                                        let (h', eq', clear) =
                                          succeed_lem
                                            (C.create_collection client.frontend request s).1
                                            is_out' in
                                        rw (eq, eq')
                                          (succeeded id sent (
                                            tenant,
                                            database,
                                            is_tenant,
                                            is_database,
                                            (k, delivered, clear),
                                          ))
    where
      func : Text
      func = ascii "chroma_create_collection"
