-- ===== src/Memory/Structs.antt =====
-- The `repr(C)` structs and the handles, as they lie in memory.
use chroma_db_net.Prelude.{ℕ, Text}

abbrev pub Ptr : Type 0
Ptr = ℕ

abbrev pub null : Ptr
null = 0

-- The bit pattern of an `f32`; that of 0.0 is 0.
abbrev pub F32 : Type 0
F32 = ℕ

-- A `c_int`: `negsuc n` is -(n + 1).
pub data ℤ : Type 0 where
  pos : ℕ → ℤ
  negsuc : ℕ → ℤ

pub data ChromaErrorCode : Type 0 where
  success invalid_argument internal_error memory_error : ChromaErrorCode
  not_found validation_error invalid_uuid not_implemented : ChromaErrorCode

-- `code as c_int`
unfoldable pub to_c_int : ChromaErrorCode → ℕ
to_c_int success = 0
to_c_int invalid_argument = 1
to_c_int internal_error = 2
to_c_int memory_error = 3
to_c_int not_found = 4
to_c_int validation_error = 5
to_c_int invalid_uuid = 6
to_c_int not_implemented = 7

pub record ChromaError : Type 0 where
  pub code : ChromaErrorCode
  pub message : Ptr
  pub source : Ptr
  pub details : Ptr

pub record SqliteConfigFfi : Type 0 where
  pub url : Ptr
  pub hash_type : ℤ
  pub migration_mode : ℤ

pub record ChromaQueryResult : Type 0 where
  pub ids : Ptr
  pub ids_count : ℕ
  pub distances : Ptr
  pub distances_count : ℕ
  pub metadata_json : Ptr
  pub metadata_count : ℕ
  pub documents : Ptr
  pub documents_count : ℕ

pub record ChromaEmbedding : Type 0 where
  pub values : Ptr
  pub dimension : ℕ

pub record ChromaResultSet : Type 0 where
  pub ids : Ptr
  pub count : ℕ

-- The runtime and the frontend are values of other crates, which the model names by numbers.
pub record ChromaClient : Type 0 where
  pub runtime : ℕ
  pub frontend : ℕ

pub record ChromaCollection : Type 0 where
  pub id : Text
  pub tenant : Text
  pub database : Text
