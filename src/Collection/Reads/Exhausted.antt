-- ===== src/Collection/Reads/Exhausted.antt =====
-- `chroma_get` when `malloc` has nothing left.
use chroma_db_net.Prelude.{ℕ, ◌≤◌, ◌≡◌, ◌≢◌, refl, Bool, none, some, ==_false, ok, arith}
use chroma_db_net.Memory.{
  Heap, Owner, Content, rust, cell_of, client, as_client, collection, as_collection, query_result,
  alloc,
}
use chroma_db_net.Memory.Laws.{IsHeap, peek_lem}
use chroma_db_net.Memory.Structs.{Ptr, null, ChromaClient, ChromaCollection, success}
use chroma_db_net.Error.Reported.{IsOut, absent, place}
use chroma_db_net.Ffi.{return, or_fail, read_optional_text}
use chroma_db_net.Ffi.Replies.{Cleared, succeed_lem}
use chroma_db_net.Ffi.Delivery.{Delivered, deliver_box}
use chroma_db_net.Chroma.{Chroma, GetResponse}
use chroma_db_net.Collection.Arguments.{read_optional_ids, read_where, parse_collection_id}
use chroma_db_net.Collection.Results.{empty_result}
use chroma_db_net.Collection.Results.Exhausted.{IsExhausted, later, marshal_get_exhausted}
use chroma_db_net.Collection.Reads.{chroma_get, include_of_get, limit_of}

later-IsHeap : (h : Heap) (n : Ptr) → h.next ≤ n → IsHeap h → IsHeap (later h n)
later-IsHeap h n le heap = record {
  positive = omega (arith, heap.positive);
  unused = λ p above. heap.unused p (omega arith);
  null_none = heap.null_none;
}

later-IsOut : {h : Heap} {out : Ptr} (n : Ptr) → IsOut h out → IsOut (later h n) out
later-IsOut n (absent e) = absent e
later-IsOut n (place {o} {c} ne at) = place {o = o} {c = c} ne at

module _ (C : Chroma) where
  -- On a valid heap where every `malloc` returns null, with live handles, a place at `result`, a
  -- null or writable `error_out`, and no ids and no filters: if the identifier parses, the include
  -- list and the request are made and the frontend answers, then whatever the response holds
  -- `chroma_get` returns success, and `*result` points to a new result whose arrays are all null
  -- and whose counts are all zero; `*error_out` is null.
  pub get_exhausted :
      {h : Heap} {handle collection_handle result error_out : Ptr} {o o' ow : Owner}
      {c : ChromaClient} {col : ChromaCollection} {old : Content} (s s' : C.State) (id : C.Uuid)
      (ids_count limit offset : ℕ) (embeddings metadatas documents : Bool) (include : C.IncludeList)
      (request : C.Get) (response : GetResponse C.Metadata)
      → IsHeap h
      → IsExhausted h
      → IsOut h error_out
      → handle ≢ null
      → collection_handle ≢ null
      → result ≢ null
      → h.cell handle ≡ some (cell_of o (client c))
      → h.cell collection_handle ≡ some (cell_of o' (collection col))
      → h.cell result ≡ some (cell_of ow old)
      → C.parse_uuid col.id ≡ ok id
      → C.include_list (include_of_get embeddings metadatas documents) ≡ ok include
      → C.new_get col.tenant col.database id none none (limit_of limit) offset include ≡ ok request
      → C.get c.frontend request s ≡ (ok response, s')
      → (k h' : Heap) × (chroma_get C handle collection_handle null ids_count null null limit offset
            embeddings metadatas documents result error_out h s
          ≡ return success h' s')
        × Delivered result (λ cell p. cell p ≡ some (cell_of rust (query_result empty_result))) h k
        × Cleared error_out k h'
  unfolding chroma_get or_fail read_optional_text read_optional_ids read_where parse_collection_id
      alloc
  get_exhausted {h} {handle} {collection_handle} {result} {ow} {old} s s' id ids_count limit offset
        embeddings metadatas documents include request response heap full is_out ne ne' result_ne at
        at' result_at is_id included made sent =
      let (n, le, marshalled) = marshal_get_exhausted C.metadata_text response h full in
      let (k, poked, delivered, out) =
        deliver_box (later-IsHeap h n le heap) {result = result} {o = ow} {c = old} result_at
          (later-IsOut n is_out) (query_result empty_result) in
      let (h', eq, clear) = succeed_lem s' out in
      (
        k,
        h',
        rw
            (
              ==_false handle null ne,
              ==_false collection_handle null ne',
              ==_false result null result_ne,
              peek_lem as_client handle h refl at,
              peek_lem as_collection collection_handle h refl at',
              is_id,
              included,
              made,
              sent,
              marshalled,
              poked,
            )
            eq,
        record {
          address = delivered.address;
          owner = delivered.owner;
          slot = delivered.slot;
          holds = delivered.holds;
          fresh = delivered.fresh;
          kept = λ q below ne''. delivered.kept q (omega (arith, le, below)) ne'';
        },
        clear,
      )
