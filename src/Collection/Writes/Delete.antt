-- ===== src/Collection/Writes/Delete.antt =====
-- `chroma_delete`: what it sends to the frontend, and what it leaves.
use chroma_db_net.Prelude.{ℕ, ◌||◌, ◌&&◌, ◌≡◌, Option, none, List, ◌==◌, Text, Result, ok, ascii}
use chroma_db_net.Memory.{Heap}
use chroma_db_net.Memory.Laws.{IsHeap}
use chroma_db_net.Memory.Structs.{internal_error, Ptr, null, ChromaClient, ChromaCollection}
use chroma_db_net.Error.Reported.{IsOut}
use chroma_db_net.Ffi.Replies.{
  Ends, succeeded, argument, validation, Cleared, Ends-bind, when-Reads, or_fail-Reads,
  or_fail-Ends, succeed_lem,
}
use chroma_db_net.Ffi.Texts.{Readable, OptionalText}
use chroma_db_net.Ffi.Handles.{
  IsClient, IsCollection, client-Reads, collection-Reads, or-left, or-right,
}
use chroma_db_net.Chroma.{Chroma}
use chroma_db_net.Collection.Arguments.Reading.{IsTexts}
use chroma_db_net.Collection.Arguments.Whole.{
  OptionalIds, IsWhere, read_optional_ids-Reads, read_where-Reads, collection_id-Reads,
}
use chroma_db_net.Collection.Writes.{chroma_delete}

module _ (C : Chroma) where
  open C use {State}

  -- The one call that `chroma_delete` makes: the ids, if there are any, and the filter.
  abbrev pub DeleteSent :
      Heap
      → ℕ
      → List Text
      → Ptr
      → Ptr
      → Ptr
      → ChromaClient
      → ChromaCollection
      → State
      → Result (Unit {0})
      → State
      → Type 0
  DeleteSent h n texts ids json_ptr document_ptr c col s reply s' =
      (id : C.Uuid) × (v : Option (List Text)) × (j : Option Text) × (d : Option Text) × (w : Option
        C.Where)
      × (request : C.Delete) × (C.parse_uuid col.id ≡ ok id)
      × OptionalIds ids n texts v
      × OptionalText h json_ptr j
      × OptionalText h document_ptr d
      × IsWhere C j d w
      × (C.new_delete col.tenant col.database id v w ≡ ok request)
      × (C.delete c.frontend request s ≡ (reply, s'))

  -- On a valid heap, with a null or live client and collection, readable arguments and null or
  -- writable places behind every out pointer, `chroma_delete` does not fault and ends in one of
  -- three ways. An early error (invalid argument, validation or UUID) leaves the state as it was,
  -- and is reported at `error_out` unless that is null. Otherwise the frontend is called once: the
  -- request holds the listed ids, or none where the array is null or its count is zero, and the
  -- parsed filter. If it answers with an error, internal error is returned, and reported at
  -- `error_out` unless that is null; if not, the code is success and only `*error_out` changed, to
  -- null.
  pub delete-Ends :
      (h : Heap) (s : State) (c : ChromaClient) (col : ChromaCollection) (n : ℕ) (texts : List Text)
      (handle collection_handle ids json_ptr document_ptr error_out : Ptr)
      → IsHeap h
      → IsOut h error_out
      → IsClient h handle c
      → IsCollection h collection_handle col
      → IsTexts h ids n texts
      → Readable h json_ptr
      → Readable h document_ptr
      → Ends error_out
          (ascii "chroma_delete")
          h
          internal_error
          s
          (DeleteSent h n texts ids json_ptr document_ptr c col s)
          (λ _ h'. Cleared error_out h h')
          (chroma_delete C handle collection_handle ids n json_ptr document_ptr error_out h s)
  unfolding chroma_delete
  delete-Ends h s c col n texts handle collection_handle ids json_ptr document_ptr error_out heap
        is_out cl is_col is_ids rj rd =
      Ends-bind _
        (when-Reads func heap is_out s (handle == null || collection_handle == null) _ none
          argument)
        λ _ checked.
          Ends-bind _
            (when-Reads func heap is_out s (ids == null && json_ptr == null && document_ptr == null)
              _ none argument)
            λ _ _.
              Ends-bind _ (client-Reads func s cl (or-left (handle == null) _ checked))
                λ client is_c.
                  Ends-bind _ (collection-Reads func s is_col (or-right (handle == null) _ checked))
                    λ collection is_collection.
                      Ends-bind _ (read_optional_ids-Reads func heap is_out s is_ids) λ v are_ids.
                        Ends-bind _ (read_where-Reads C func heap is_out s rj rd)
                          λ w (j, d, is_j, is_d, is_w).
                            Ends-bind _ (collection_id-Reads C func heap is_out s collection)
                              λ id is_id.
                                Ends-bind _
                                  (or_fail-Reads func heap is_out s _ _
                                    (C.new_delete collection.tenant collection.database id v w)
                                    validation)
                                  λ request made.
                                    or_fail-Ends func heap is_out
                                      (C.delete client.frontend request s).1 _ _ _ _
                                      (
                                        id,
                                        v,
                                        j,
                                        d,
                                        w,
                                        request,
                                        rw is_collection at is_id,
                                        are_ids,
                                        is_j,
                                        is_d,
                                        is_w,
                                        rw is_collection at made,
                                        rw is_c,
                                      )
                                      λ u sent.
                                        let (h', eq, clear) =
                                          succeed_lem (C.delete client.frontend request s).1
                                            is_out in
                                        rw eq (succeeded u sent clear)
    where
      func : Text
      func = ascii "chroma_delete"
