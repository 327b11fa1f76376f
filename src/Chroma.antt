-- ===== src/Chroma.antt =====
-- The crates that the library calls (chroma_types, chroma_frontend, chroma_config, serde_json,
-- uuid, tokio) and the system clock, as a parameter. A `Result` carries the printed form of its
-- error. `State` is all that they keep between calls.
use chroma_db_net.Prelude.{ℕ, Bool, Option, List, Text, Result}
use chroma_db_net.Memory.Structs.{F32, ChromaClient}

-- chroma_sqlite::config
pub data MigrationHash : Type 0 where
  sha256 md5 : MigrationHash

pub data MigrationMode : Type 0 where
  apply validate : MigrationMode

pub record SqliteDbConfig : Type 0 where
  pub url : Option Text
  pub hash_type : MigrationHash
  pub migration_mode : MigrationMode

pub record LocalSegmentManagerConfig : Type 0 where
  pub cache_capacity : ℕ
  pub persist_path : Option Text

pub record SqliteSysDbConfig : Type 0 where
  pub log_topic_namespace : Text
  pub log_tenant : Text

pub record SqliteLogConfig : Type 0 where
  pub tenant_id : Text
  pub topic_namespace : Text

pub record CollectionsProviderConfig : Type 0 where
  pub retry_delay_ms : ℕ
  pub max_retries : ℕ
  pub permitted_parallelism : ℕ
  pub cache_ttl_secs : ℕ

pub data KnnIndex : Type 0 where
  hnsw : KnnIndex

-- The fields that `chroma_create_client` sets.
pub record FrontendConfig : Type 0 where
  pub allow_reset : Bool
  pub segment_manager : LocalSegmentManagerConfig
  pub sqlitedb : SqliteDbConfig
  pub sysdb : SqliteSysDbConfig
  pub collections_with_segments_provider : CollectionsProviderConfig
  pub log : SqliteLogConfig
  pub default_knn_index : KnnIndex
  pub tenants_to_migrate_immediately : List Text
  pub tenants_to_migrate_immediately_threshold : Option Text
  pub enable_schema : Bool
  pub min_records_for_invocation : ℕ
  pub tenants_with_quantization_enabled : List Text
  pub tenants_with_maxscore_enabled : List Text
  pub enable_log_scouting : Bool

pub record GetResponse (Metadata : Type 0) : Type 0 where
  pub ids : List Text
  pub metadatas : Option (List (Option Metadata))
  pub documents : Option (List (Option Text))

pub record QueryResponse (Metadata : Type 0) : Type 0 where
  pub ids : List (List Text)
  pub distances : Option (List (List (Option F32)))
  pub metadatas : Option (List (List (Option Metadata)))
  pub documents : Option (List (List (Option Text)))

pub record Chroma : Type 1 where
  pub State : Type 0
  pub Uuid : Type 0
  pub DatabaseName : Type 0
  pub Metadata : Type 0
  pub UpdateMetadata : Type 0
  pub Configuration : Type 0
  pub InternalConfiguration : Type 0
  pub RawWhere : Type 0
  pub Where : Type 0
  pub IncludeList : Type 0
  pub CreateDatabase : Type 0
  pub GetDatabase : Type 0
  pub DeleteDatabase : Type 0
  pub CreateCollection : Type 0
  pub GetCollection : Type 0
  pub Add : Type 0
  pub Count : Type 0
  pub Update : Type 0
  pub Upsert : Type 0
  pub Delete : Type 0
  pub Get : Type 0
  pub Query : Type 0
  -- values
  pub database_name : Text → Option DatabaseName
  pub parse_uuid : Text → Result Uuid
  pub uuid_text : Uuid → Text
  pub parse_metadata : Text → Result Metadata
  pub parse_update_metadata : Text → Result UpdateMetadata
  pub metadata_text : Metadata → Result Text
  pub parse_configuration : Text → Result Configuration
  pub try_from_config : Configuration → KnnIndex → Result InternalConfiguration
  pub where_from_json : Option Text → Option Text → Result RawWhere
  pub parse_where : RawWhere → Result (Option Where)
  pub include_list : List Text → Result IncludeList
  -- the `try_new` of the requests
  pub new_create_database : Text → DatabaseName → Result CreateDatabase
  pub new_get_database : Text → DatabaseName → Result GetDatabase
  pub new_delete_database : Text → Text → Result DeleteDatabase
  pub new_create_collection :
      Text
      → DatabaseName
      → Text
      → Option Metadata
      → Option InternalConfiguration
      → Bool
      → Result CreateCollection
  pub new_get_collection : Text → DatabaseName → Text → Result GetCollection
  pub new_add :
      Text
      → Text
      → Uuid
      → List Text
      → List (List F32)
      → Option (List (Option Text))
      → Option (List (Option Metadata))
      → Result Add
  pub new_count : Text → Text → Uuid → Result Count
  pub new_update :
      Text
      → Text
      → Uuid
      → List Text
      → Option (List (Option (List F32)))
      → Option (List (Option Text))
      → Option (List (Option UpdateMetadata))
      → Result Update
  pub new_upsert :
      Text
      → Text
      → Uuid
      → List Text
      → List (List F32)
      → Option (List (Option Text))
      → Option (List (Option UpdateMetadata))
      → Result Upsert
  pub new_delete : Text → Text → Uuid → Option (List Text) → Option Where → Result Delete
  pub new_get :
      Text
      → Text
      → Uuid
      → Option (List Text)
      → Option Where
      → Option ℕ
      → ℕ
      → IncludeList
      → Result Get
  pub new_query :
      Text → Text → Uuid → Option Where → List (List F32) → ℕ → IncludeList → Result Query
  -- the runtime, the frontend and the clock
  pub now : State → Result ℕ × State
  pub new_runtime : State → Result ℕ × State
  pub new_frontend : FrontendConfig → ℕ → State → Result ℕ × State
  pub drop_client : ChromaClient → State → State
  pub default_knn_index : ℕ → KnnIndex
  pub create_database : ℕ → CreateDatabase → State → Result (Unit {0}) × State
  pub get_database : ℕ → GetDatabase → State → Result Uuid × State
  pub delete_database : ℕ → DeleteDatabase → State → Result (Unit {0}) × State
  pub create_collection : ℕ → CreateCollection → State → Result Uuid × State
  pub get_collection : ℕ → GetCollection → State → Result Uuid × State
  pub add : ℕ → Add → State → Result (Unit {0}) × State
  pub count : ℕ → Count → State → Result ℕ × State
  pub update : ℕ → Update → State → Result (Unit {0}) × State
  pub upsert : ℕ → Upsert → State → Result (Unit {0}) × State
  pub delete : ℕ → Delete → State → Result (Unit {0}) × State
  pub get : ℕ → Get → State → Result (GetResponse Metadata) × State
  pub query : ℕ → Query → State → Result (QueryResponse Metadata) × State
