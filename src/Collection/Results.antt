-- ===== src/Collection/Results.antt =====
-- How a response becomes a `ChromaQueryResult`, in `chroma_get` and `chroma_query` of
-- src/collection/operations.rs.
pub mod Exhausted
use chroma_db_net.Prelude.{Option, none, some, List, [], ◌∷◌, map, Text, Result, ok, err}
use chroma_db_net.Memory.{Mem, pure, ◌>>=◌}
use chroma_db_net.Memory.Structs.{null, F32, ChromaQueryResult}
use chroma_db_net.Utils.{vec_string_to_c_array, vec_f32_to_c_array}
use chroma_db_net.Chroma.{GetResponse, QueryResponse}

abbrev pub empty_result : ChromaQueryResult
empty_result = record {
  ids = null;
  ids_count = 0;
  distances = null;
  distances_count = 0;
  metadata_json = null;
  metadata_count = 0;
  documents = null;
  documents_count = 0;
}

-- `serde_json::to_string(metadata).unwrap_or_default()`, and no metadata as the empty string.
unfoldable pub metadata_string : {M : Type 0} → (M → Result Text) → Option M → Text
metadata_string print none = []
metadata_string print (some m) = elim (print m) [ ok t ↦ t | err e ↦ [] ]

-- `d.clone().unwrap_or_default()`
unfoldable pub document_string : Option Text → Text
document_string none = []
document_string (some d) = d

-- `d.unwrap_or(0.0)`
unfoldable pub distance_value : Option F32 → F32
distance_value none = 0
distance_value (some d) = d

-- An array is made only of a list that is not empty.
unfoldable pub set_ids : List Text → ChromaQueryResult → Mem ChromaQueryResult
set_ids [] r = pure r
set_ids (s ∷ ss) r = do
  (array, count) ← vec_string_to_c_array (s ∷ ss)
  pure (record r { ids = array; ids_count = count })

module _ {M : Type 0} (print : M → Result Text) where
  unfoldable pub put_metadatas : List (Option M) → ChromaQueryResult → Mem ChromaQueryResult
  put_metadatas ms r = do
    (array, count) ← vec_string_to_c_array (map (metadata_string print) ms)
    pure (record r { metadata_json = array; metadata_count = count })

  unfoldable pub set_metadatas :
      Option (List (Option M)) → ChromaQueryResult → Mem ChromaQueryResult
  unfolding put_metadatas
  set_metadatas none r = pure r
  set_metadatas (some []) r = pure r
  set_metadatas (some (m ∷ ms)) r = put_metadatas (m ∷ ms) r

  -- Of a query the first row counts, which may be empty.
  unfoldable pub set_first_metadatas :
      Option (List (List (Option M))) → ChromaQueryResult → Mem ChromaQueryResult
  unfolding put_metadatas
  set_first_metadatas none r = pure r
  set_first_metadatas (some []) r = pure r
  set_first_metadatas (some (ms ∷ rows)) r = put_metadatas ms r

unfoldable pub put_documents : List (Option Text) → ChromaQueryResult → Mem ChromaQueryResult
put_documents ds r = do
  (array, count) ← vec_string_to_c_array (map document_string ds)
  pure (record r { documents = array; documents_count = count })

unfoldable pub set_documents :
    Option (List (Option Text)) → ChromaQueryResult → Mem ChromaQueryResult
unfolding put_documents
set_documents none r = pure r
set_documents (some []) r = pure r
set_documents (some (d ∷ ds)) r = put_documents (d ∷ ds) r

unfoldable pub set_first_ids : List (List Text) → ChromaQueryResult → Mem ChromaQueryResult
set_first_ids [] r = pure r
set_first_ids (ids ∷ rows) r = do
  (array, count) ← vec_string_to_c_array ids
  pure (record r { ids = array; ids_count = count })

unfoldable pub set_distances :
    Option (List (List (Option F32))) → ChromaQueryResult → Mem ChromaQueryResult
set_distances none r = pure r
set_distances (some []) r = pure r
set_distances (some ([] ∷ rows)) r = pure r
set_distances (some ((d ∷ ds) ∷ rows)) r = do
  (array, count) ← vec_f32_to_c_array (map distance_value (d ∷ ds))
  pure (record r { distances = array; distances_count = count })

unfoldable pub set_first_documents :
    Option (List (List (Option Text))) → ChromaQueryResult → Mem ChromaQueryResult
unfolding put_documents
set_first_documents none r = pure r
set_first_documents (some []) r = pure r
set_first_documents (some (ds ∷ rows)) r = put_documents ds r

-- The fields of the boxed result, which the source writes one by one through the box.
unfoldable pub marshal_get :
    {M : Type 0} → (M → Result Text) → GetResponse M → Mem ChromaQueryResult
unfolding set_ids set_metadatas set_documents
marshal_get print response = do
  r ← set_ids response.ids empty_result
  r' ← set_metadatas print response.metadatas r
  set_documents response.documents r'

unfoldable pub marshal_query :
    {M : Type 0} → (M → Result Text) → QueryResponse M → Mem ChromaQueryResult
unfolding set_first_ids set_distances set_first_metadatas set_first_documents
marshal_query print response = do
  r ← set_first_ids response.ids empty_result
  r' ← set_distances response.distances r
  r'' ← set_first_metadatas print response.metadatas r'
  set_first_documents response.documents r''
