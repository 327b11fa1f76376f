-- ===== src/Client/Create.antt =====
-- `chroma_create_client`: its arguments, the configuration of the frontend, and the new handle.
use chroma_db_net.Prelude.{
  ℕ, zero, suc, ◌+◌, Bool, false, Option, none, some, [], ◌++◌, ◌==◌, if◌then◌else◌, Text, ascii,
  decimal,
}
use chroma_db_net.Memory.{alloc, peek, poke, as_sqlite_config, client, pointer}
use chroma_db_net.Memory.Structs.{Ptr, null, ℤ, pos, negsuc, invalid_argument, internal_error}
use chroma_db_net.Ffi.{
  Ffi, pure, ◌>>=◌, ◌>>◌, mem, call, fail, succeed, or_fail, when, read_text, read_optional_text,
}
use chroma_db_net.Chroma.{
  Chroma, MigrationHash, sha256, md5, MigrationMode, apply, validate, SqliteDbConfig,
  FrontendConfig, hnsw,
}

-- A `c_int` in a message.
unfoldable pub print_c_int : ℤ → Text
print_c_int (pos n) = decimal n
print_c_int (negsuc n) = ascii "-" ++ decimal (n + 1)

module _ {S : Type 0} (error_out : Ptr) (func_name : Text) where
  unfoldable pub read_hash_type : ℤ → Ffi S MigrationHash
  read_hash_type (pos zero) = pure sha256
  read_hash_type (pos (suc zero)) = pure md5
  read_hash_type invalid =
      fail error_out func_name invalid_argument (ascii "Invalid hash type")
        (some (ascii "Got " ++ (print_c_int invalid ++ ascii ", expected 0 (SHA256) or 1 (MD5)")))

  unfoldable pub read_migration_mode : ℤ → Ffi S MigrationMode
  read_migration_mode (pos zero) = pure apply
  read_migration_mode (pos (suc zero)) = pure validate
  read_migration_mode invalid =
      fail error_out func_name invalid_argument (ascii "Invalid migration mode") (
        some
          (ascii "Got " ++ (print_c_int invalid ++ ascii ", expected 0 (Apply) or 1 (Validate)")))

  -- The URL is read, and then not used.
  unfoldable pub read_sqlite_config : Ptr → Ffi S SqliteDbConfig
  unfolding read_hash_type read_migration_mode
  read_sqlite_config sqlite_config_ptr =
      if sqlite_config_ptr == null
      then pure (record { url = none; hash_type = sha256; migration_mode = apply })
      else do
        sqlite_config ← mem (peek as_sqlite_config sqlite_config_ptr)
        read_text error_out func_name (ascii "Invalid SQLite URL") sqlite_config.url
        hash_type ← read_hash_type sqlite_config.hash_type
        migration_mode ← read_migration_mode sqlite_config.migration_mode
        pure (record { url = none; hash_type = hash_type; migration_mode = migration_mode })

unfoldable pub with_persist_path : SqliteDbConfig → Option Text → SqliteDbConfig
with_persist_path config none = config
with_persist_path config (some dir) = record config { url = some (dir ++ ascii "/chroma.sqlite3") }

unfoldable pub frontend_config : Bool → ℕ → Option Text → SqliteDbConfig → FrontendConfig
frontend_config allow_reset hnsw_cache_size persist_path sqlite_db_config = record {
  allow_reset = allow_reset;
  segment_manager = record { cache_capacity = hnsw_cache_size; persist_path = persist_path };
  sqlitedb = sqlite_db_config;
  sysdb = record { log_topic_namespace = ascii "default"; log_tenant = ascii "default" };
  collections_with_segments_provider = record {
    retry_delay_ms = 0;
    max_retries = 0;
    permitted_parallelism = 32;
    cache_ttl_secs = 60;
  };
  log = record { tenant_id = ascii "default"; topic_namespace = ascii "default" };
  default_knn_index = hnsw;
  tenants_to_migrate_immediately = [];
  tenants_to_migrate_immediately_threshold = none;
  enable_schema = false;
  min_records_for_invocation = 0;
  tenants_with_quantization_enabled = [];
  tenants_with_maxscore_enabled = [];
  enable_log_scouting = false;
}

module _ (C : Chroma) where
  unfoldable pub chroma_create_client : Bool → Ptr → ℕ → Ptr → Ptr → Ptr → Ffi C.State (Unit {0})
  chroma_create_client allow_reset sqlite_config_ptr hnsw_cache_size persist_path_ptr client_handle
        error_out =
      do
        let func_name = ascii "chroma_create_client"
        when (client_handle == null)
            (fail error_out func_name invalid_argument (ascii "Client handle pointer is null") none)
        sqlite_db_config ← read_sqlite_config error_out func_name sqlite_config_ptr
        persist_path ←
            read_optional_text error_out func_name (ascii "Invalid persistence path")
              persist_path_ptr
        let sqlite_db_config' = with_persist_path sqlite_db_config persist_path
        made ← call C.new_runtime
        runtime ←
            or_fail error_out func_name internal_error (ascii "Failed to create Tokio runtime") []
              made
        reply ← call (
            C.new_frontend
              (frontend_config allow_reset hnsw_cache_size persist_path sqlite_db_config') runtime)
        frontend ←
            or_fail error_out func_name internal_error (ascii "Failed to create Chroma frontend") []
              reply
        handle ← mem (alloc (client (record { runtime = runtime; frontend = frontend })))
        mem (poke client_handle (pointer handle))
        succeed error_out
