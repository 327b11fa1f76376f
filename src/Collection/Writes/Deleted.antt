-- ===== src/Collection/Writes/Deleted.antt =====
-- `chroma_delete` at arguments that are in order: it succeeds.
use chroma_db_net.Prelude.{
  ℕ, ◌&&◌, ◌≡◌, ◌≢◌, inl, inr, refl, true, false, Option, none, some, List, ◌==◌, ltb, ==_false,
  Text, ok, ascii, arith, Bool-cases,
}
use chroma_db_net.Memory.{Heap, Owner, cell_of, client, as_client, collection, as_collection}
use chroma_db_net.Memory.Laws.{peek_lem}
use chroma_db_net.Memory.Structs.{Ptr, null, ChromaClient, ChromaCollection, success}
use chroma_db_net.Error.Reported.{IsOut}
use chroma_db_net.Ffi.{value, return, or_fail, read_optional_text}
use chroma_db_net.Ffi.Replies.{Cleared, succeed_lem}
use chroma_db_net.Ffi.Texts.{OptionalText, not_given, given}
use chroma_db_net.Ffi.Accepted.{IsText-ne, read_text_lem}
use chroma_db_net.Chroma.{Chroma}
use chroma_db_net.Collection.Arguments.{
  read_optional_ids, where_of, read_where, parse_collection_id,
}
use chroma_db_net.Collection.Arguments.Reading.{IsTexts}
use chroma_db_net.Collection.Arguments.Whole.{
  OptionalIds, unlisted, listed, IsWhere, unfiltered, filtered,
}
use chroma_db_net.Collection.Arguments.Accepted.{read_ids_lem}
use chroma_db_net.Collection.Writes.{chroma_delete}

module _ {S : Type 0} (out : Ptr) (func_name : Text) {h : Heap} (s : S) where
  read_optional_text_lem :
      (message : Text) {p : Ptr} {t : Option Text}
      → OptionalText h p t
      → read_optional_text out func_name message p h s ≡ value t h s
  unfolding read_optional_text
  read_optional_text_lem message (not_given e) = rw e refl
  read_optional_text_lem message {p} (given is_t) =
      rw (==_false p null (IsText-ne is_t), read_text_lem out func_name s message is_t) refl

  read_optional_ids_lem :
      {p : Ptr} {n : ℕ} {ts : List Text} {v : Option (List Text)}
      → IsTexts h p n ts
      → OptionalIds p n ts v
      → read_optional_ids out func_name p n h s ≡ value v h s
  unfolding read_optional_ids
  read_optional_ids_lem is_ts (unlisted (inl e)) = rw e refl
  read_optional_ids_lem {p} is_ts (unlisted (inr e)) =
      rw e (elim (Bool-cases (p == null)) [ inl b ↦ rw b refl | inr b ↦ rw b refl ])
  read_optional_ids_lem {p} {n} is_ts (listed ne more) =
      rw (==_false p null ne, ltb-pos, read_ids_lem out func_name s is_ts ne) refl
    where
      ltb-pos : ltb 0 n ≡ true
      ltb-pos = ground arith

module _ (C : Chroma) where
  where_of_lem :
      (out : Ptr) (func_name : Text) {h : Heap} (s : C.State) (j d : Option Text)
      {w : Option C.Where}
      → IsWhere C j d w
      → where_of C out func_name j d h s ≡ value w h s
  unfolding where_of or_fail
  where_of_lem out func_name s none none (unfiltered e e' none_w) = rw none_w refl
  where_of_lem out func_name s none none (filtered raw (inl ne) made parsed) = absurd (ne refl)
  where_of_lem out func_name s none none (filtered raw (inr ne) made parsed) = absurd (ne refl)
  where_of_lem out func_name s none (some d) (filtered raw _ made parsed) = rw (made, parsed) refl
  where_of_lem out func_name s (some j) d (filtered raw _ made parsed) = rw (made, parsed) refl
  where_of_lem out func_name s none (some d) (unfiltered e e' none_w) = absurd (ground arith)
  where_of_lem out func_name s (some j) d (unfiltered e e' none_w) = absurd (ground arith)

  -- With live handles, not all of the id array and the two filters null, ids that are listed or
  -- none, filters that are null or strings and parse as a whole, and a null or writable
  -- `error_out`: if the identifier of the collection parses, the request with the ids and the
  -- filter is made and the frontend deletes, then `chroma_delete` returns success, the state is the
  -- frontend's, and only `*error_out` changed, to null.
  pub delete_succeeds :
      {h : Heap} {n : ℕ} {texts : List Text}
      {handle collection_handle ids json_ptr document_ptr error_out : Ptr} {o o' : Owner}
      {c : ChromaClient} {col : ChromaCollection} (s s' : C.State) (id : C.Uuid)
      (v : Option (List Text)) (j d : Option Text) (w : Option C.Where) (request : C.Delete)
      → IsOut h error_out
      → handle ≢ null
      → collection_handle ≢ null
      → h.cell handle ≡ some (cell_of o (client c))
      → h.cell collection_handle ≡ some (cell_of o' (collection col))
      → (ids == null && json_ptr == null && document_ptr == null) ≡ false
      → IsTexts h ids n texts
      → OptionalIds ids n texts v
      → OptionalText h json_ptr j
      → OptionalText h document_ptr d
      → IsWhere C j d w
      → C.parse_uuid col.id ≡ ok id
      → C.new_delete col.tenant col.database id v w ≡ ok request
      → C.delete c.frontend request s ≡ (ok tt, s')
      → (h' : Heap) × (chroma_delete C handle collection_handle ids n json_ptr document_ptr
            error_out h s
          ≡ return success h' s')
        × Cleared error_out h h'
  unfolding chroma_delete read_where or_fail parse_collection_id
  delete_succeeds {h} {handle} {collection_handle} {error_out} s s' id v j d w request is_out ne ne'
        at at' named is_ts is_v is_j is_d is_w is_id made sent =
      let (h', eq, clear) = succeed_lem s' is_out in
      let func = ascii "chroma_delete" in
      (
        h',
        rw
            (
              ==_false handle null ne,
              ==_false collection_handle null ne',
              named,
              peek_lem as_client handle h refl at,
              peek_lem as_collection collection_handle h refl at',
              read_optional_ids_lem error_out func s is_ts is_v,
              read_optional_text_lem error_out func s _ is_j,
              read_optional_text_lem error_out func s _ is_d,
              where_of_lem error_out func s j d is_w,
              is_id,
              made,
              sent,
            )
            eq,
        clear,
      )
