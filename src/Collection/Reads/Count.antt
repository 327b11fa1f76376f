-- ===== src/Collection/Reads/Count.antt =====
-- `chroma_count`: what it asks the frontend, and where the answer goes.
use chroma_db_net.Prelude.{ℕ, ◌||◌, ◌≡◌, none, some, ◌==◌, Text, Result, ok, ascii}
use chroma_db_net.Memory.{Heap, Owner, cell_of, word, write}
use chroma_db_net.Memory.Laws.{IsHeap, poke_lem}
use chroma_db_net.Memory.Structs.{internal_error, Ptr, null, ChromaClient, ChromaCollection}
use chroma_db_net.Error.Reported.{IsOut}
use chroma_db_net.Ffi.Replies.{
  Ends, succeeded, argument, validation, Cleared, Ends-bind, when-Reads, or_fail-Reads,
  or_fail-Ends, succeed_lem,
}
use chroma_db_net.Ffi.Handles.{
  IsClient, IsCollection, client-Reads, collection-Reads, or-left, or-right, place-of, IsOut-write,
}
use chroma_db_net.Chroma.{Chroma}
use chroma_db_net.Collection.Arguments.Whole.{collection_id-Reads}
use chroma_db_net.Collection.Reads.{chroma_count}

-- The number stands at `result`, and `*error_out` is cleared after that.
abbrev pub WordDelivered : Heap → Ptr → Ptr → ℕ → Heap → Type 0
WordDelivered h result error_out n h' =
    (o : Owner) × Cleared error_out (write h result (some (cell_of o (word n)))) h'

module _ (C : Chroma) where
  open C use {State}

  abbrev pub CountSent : ChromaClient → ChromaCollection → State → Result ℕ → State → Type 0
  CountSent c col s reply s' =
      (id : C.Uuid) × (request : C.Count) × (C.parse_uuid col.id ≡ ok id)
      × (C.new_count col.tenant col.database id ≡ ok request)
      × (C.count c.frontend request s ≡ (reply, s'))

  -- On a valid heap, with a null or live client and collection, readable arguments and null or
  -- writable places behind every out pointer, `chroma_count` does not fault and ends in one of
  -- three ways. An early error (invalid argument, validation or UUID) leaves the state as it was,
  -- and is reported at `error_out` unless that is null. Otherwise the frontend is called once: the
  -- request names the collection by its parsed identifier. If it answers with an error, internal
  -- error is returned, and reported at `error_out` unless that is null; if not, the code is
  -- success, the count stands at `result`, and `*error_out` is null.
  pub count-Ends :
      (h : Heap) (s : State) (c : ChromaClient) (col : ChromaCollection)
      (handle collection_handle result error_out : Ptr)
      → IsHeap h
      → IsOut h error_out
      → IsOut h result
      → IsClient h handle c
      → IsCollection h collection_handle col
      → Ends error_out
          (ascii "chroma_count")
          h
          internal_error
          s
          (CountSent c col s)
          (WordDelivered h result error_out)
          (chroma_count C handle collection_handle result error_out h s)
  unfolding chroma_count
  count-Ends h s c col handle collection_handle result error_out heap is_out is_result cl is_col =
      Ends-bind _
        (when-Reads func heap is_out s
          (handle == null || collection_handle == null || result == null) _ none argument)
        λ _ checked.
          Ends-bind _
            (client-Reads func s cl
              (or-left (handle == null) _ (or-left _ (result == null) checked)))
            λ client is_c.
              Ends-bind _
                (collection-Reads func s is_col
                  (or-right (handle == null) _ (or-left _ (result == null) checked)))
                λ collection is_collection.
                  Ends-bind _ (collection_id-Reads C func heap is_out s collection) λ id is_id.
                    Ends-bind _
                      (or_fail-Reads func heap is_out s _ _
                        (C.new_count collection.tenant collection.database id) validation)
                      λ request made.
                        or_fail-Ends func heap is_out (C.count client.frontend request s).1 _ _ _ _
                          (
                            id,
                            request,
                            rw is_collection at is_id,
                            rw is_collection at made,
                            rw is_c,
                          )
                          λ n sent.
                            let (o, content, at) =
                              place-of is_result (
                                or-right (handle == null || collection_handle == null) _ checked) in
                            let (h', eq, clear) =
                              succeed_lem (C.count client.frontend request s).1
                                (IsOut-write result (cell_of o (word n)) is_out) in
                            rw (poke_lem result (word n) h at, eq) (succeeded n sent (o, clear))
    where
      func : Text
      func = ascii "chroma_count"
