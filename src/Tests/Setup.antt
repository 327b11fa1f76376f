-- ===== src/Tests/Setup.antt =====
-- A small service in place of the crates, and memory with the arguments of a call in it.
use chroma_db_net.Prelude.{
  map, ◌≡◌, ℕ, refl, true, false, Option, none, some, List, [], ◌∷◌, ◌++◌, ◌==◌, ltb, if◌then◌else◌,
  Text, ok, err, ascii, arith, length,
}
use chroma_db_net.Memory.{
  Owner, caller, rust, Content, chars, pointers, floats, pointer, word, client, collection, Cell,
  cell_of, Heap,
}
use chroma_db_net.Memory.Laws.{IsHeap}
use chroma_db_net.Memory.Structs.{Ptr, null, ChromaClient, ChromaCollection}
use chroma_db_net.Error.Reported.{IsOut, place}
use chroma_db_net.Ffi.Handles.{IsClient, live_client, IsCollection, live_collection}
use chroma_db_net.Ffi.Texts.{Readable, string_arg, null_arg}
use chroma_db_net.Utf8.{lossy, start}
use chroma_db_net.Utils.{rust_text, until_nul}
use chroma_db_net.Utils.Reading
use chroma_db_net.Collection.Arguments.Reading.{
  IsTexts, no_texts, texts_at, vectors_at, nil, vector,
}
use chroma_db_net.Collection.Writes.Ends.{Records}
use chroma_db_net.Ffi.Replies.{IsText, text_at}
use chroma_db_net.Chroma.{Chroma, hnsw}

-- The service keeps the names of its databases, and names them by themselves.
abbrev pub service : Chroma
service = record {
  State = List Text;
  Uuid = Text;
  DatabaseName = Text;
  Metadata = Text;
  UpdateMetadata = Text;
  Configuration = Text;
  InternalConfiguration = Text;
  RawWhere = Text;
  Where = Text;
  IncludeList = List Text;
  CreateDatabase = Text;
  GetDatabase = Text;
  DeleteDatabase = Text;
  CreateCollection = Text;
  GetCollection = Text;
  Add = List Text;
  Count = Text;
  Update = List Text;
  Upsert = List Text;
  Delete = Option (List Text);
  Get = List Text;
  Query = ℕ;
  database_name = λ t. if ltb (length t) 3 then none else some t;
  parse_uuid = λ t. ok t;
  uuid_text = λ t. t;
  parse_metadata = λ t. ok t;
  parse_update_metadata = λ t. ok t;
  metadata_text = λ t. ok t;
  parse_configuration = λ t. ok t;
  try_from_config = λ c index. ok c;
  where_from_json = λ json document. err (ascii "no filter");
  parse_where = λ raw. ok none;
  include_list = λ l. ok l;
  new_create_database = λ tenant db. ok db;
  new_get_database = λ tenant db. ok db;
  new_delete_database = λ tenant name. ok name;
  new_create_collection = λ tenant db name metadata config get_or_create. ok name;
  new_get_collection = λ tenant db name. ok name;
  new_add = λ tenant db id ids embeddings documents metadatas. ok ids;
  new_count = λ tenant db id. ok id;
  new_update = λ tenant db id ids embeddings documents metadatas. ok ids;
  new_upsert = λ tenant db id ids embeddings documents metadatas. ok ids;
  new_delete = λ tenant db id ids filter. ok ids;
  new_get = λ tenant db id ids filter limit offset include. ok include;
  new_query = λ tenant db id filter embeddings n include. ok n;
  now = λ s. (ok 5, s);
  new_runtime = λ s. (ok 1, s);
  new_frontend = λ config runtime s. (ok 1, s);
  drop_client = λ c s. s;
  default_knn_index = λ frontend. hnsw;
  create_database = λ frontend request s. (ok tt, request ∷ s);
  get_database = λ frontend request s. (ok request, s);
  delete_database = λ frontend request s. (ok tt, []);
  create_collection = λ frontend request s. (ok request, s);
  get_collection = λ frontend request s. (ok request, s);
  add = λ frontend request s. (ok tt, request ++ s);
  count = λ frontend request s. (ok (length s), s);
  update = λ frontend request s. (ok tt, s);
  upsert = λ frontend request s. (ok tt, request ++ s);
  delete = λ frontend request s. (ok tt, []);
  get = λ frontend request s.
      (ok (record { ids = s; metadatas = none; documents = some (map some s) }), s);
  query = λ frontend request s. (err (ascii "offline"), s);
}

abbrev pub a_client : ChromaClient
a_client = record { runtime = 1; frontend = 1 }

abbrev pub a_collection : ChromaCollection
a_collection = record { id = ascii "c1"; tenant = ascii "t"; database = ascii "main" }

abbrev block : Owner → Content → Option Cell
block o c = some (cell_of o c)

-- A client at 1, a collection at 2, places for the error and the result at 3 and 4, a name at 5,
-- and two records in arrays from 6 on, the second without an embedding.
abbrev cells : Ptr → Option Cell
cells p =
    if p == 1
    then block rust (client a_client)
    else if p == 2
    then block rust (collection a_collection)
    else if p == 3
    then block caller (pointer null)
    else if p == 4
    then block caller (word 0)
    else if p == 5
    then block caller (chars (ascii "main"))
    else if p == 6
    then block caller (pointers (some 7 ∷ some 8 ∷ []))
    else if p == 7
    then block caller (chars (ascii "a"))
    else if p == 8
    then block caller (chars (ascii "b"))
    else if p == 9
    then block caller (pointers (some 10 ∷ some null ∷ []))
    else if p == 10
    then block caller (floats (some 1 ∷ some 2 ∷ []))
    else none

abbrev pub memory : Heap
memory = record { next = 11; cell = cells; refuse = λ p. false }

pub memory-IsHeap : IsHeap memory
memory-IsHeap = record {
  positive = omega arith;
  unused = λ p above. ground arith;
  null_none = refl;
}

-- The same memory when `malloc` has nothing left.
abbrev pub exhausted : Heap
exhausted = record memory { refuse = λ p. true }

pub error_place : IsOut memory 3
error_place = place {o = caller} {c = pointer null} (omega arith) refl

pub result_place : IsOut memory 4
result_place = place {o = caller} {c = word 0} (omega arith) refl

pub a_client-IsClient : IsClient memory 1 a_client
a_client-IsClient = live_client rust (omega arith) refl

pub a_collection-IsCollection : IsCollection memory 2 a_collection
a_collection-IsCollection = live_collection rust (omega arith) refl

pub the_name : Readable memory 5
the_name = string_arg caller (ascii "main") (omega arith) refl

pub no_string : Readable memory null
no_string = null_arg refl

is_text : ascii "a" ≡ rust_text (ascii "a")
unfolding rust_text lossy until_nul start
is_text = refl

pub ids : IsTexts memory 6 1 (ascii "a" ∷ [])
ids =
    texts_at (7 ∷ []) (omega arith) (record { owner = caller; rest = some 8 ∷ []; holds = refl })
      refl (Reading.text (omega arith) refl is_text Reading.nil)

-- A record with an id, an embedding and a document.
abbrev pub one : Records memory 1 2 6 9 null 6
one = record {
  id_texts = ascii "a" ∷ [];
  vectors = some (1 ∷ 2 ∷ []) ∷ [];
  metadata_texts = [];
  document_texts = ascii "a" ∷ [];
  ids_at = ids;
  embeddings_at =
      vectors_at (10 ∷ []) (omega arith)
        (record { owner = caller; rest = some null ∷ []; holds = refl }) refl
        (vector caller (1 ∷ 2 ∷ []) [] (omega arith) refl refl nil);
  metadatas_at = no_texts refl;
  documents_at = ids;
}

pub exhausted-IsHeap : IsHeap exhausted
exhausted-IsHeap = record {
  positive = omega arith;
  unused = λ p above. ground arith;
  null_none = refl;
}

pub is_main : IsText memory 5 (ascii "main")
unfolding rust_text lossy until_nul start
is_main = text_at {o = caller} {raw = ascii "main"} (omega arith) refl refl
