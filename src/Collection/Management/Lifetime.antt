-- ===== src/Collection/Management/Lifetime.antt =====
-- The end of the handle of a collection.
use chroma_db_net.Prelude.{◌≡◌, ◌≢◌, refl, none, some, ==_false}
use chroma_db_net.Memory.{Heap, rust, cell_of, collection, as_collection, write}
use chroma_db_net.Memory.Laws.{take_rust_lem, take_rust-none}
use chroma_db_net.Memory.Structs.{Ptr, null, ChromaCollection, success}
use chroma_db_net.Error.Reported.{IsOut}
use chroma_db_net.Ffi.{Outcome, return}
use chroma_db_net.Ffi.Replies.{Cleared, succeed_lem}
use chroma_db_net.Ffi.Handles.{IsOut-free, freed_stays}
use chroma_db_net.Collection.Management.{chroma_destroy_collection}

-- With a live collection, and an `error_out` that is null or a writable place other than the
-- collection, `chroma_destroy_collection` returns success, frees the block and changes nothing else
-- but `*error_out`, to null; to destroy the same collection again is a fault.
pub destroy_collection_once :
    {S : Type 0} (h : Heap) (s : S) (c : ChromaCollection) (collection_handle error_out : Ptr)
    → IsOut h error_out
    → collection_handle ≢ null
    → error_out ≢ collection_handle
    → h.cell collection_handle ≡ some (cell_of rust (collection c))
    → (h' : Heap) × (chroma_destroy_collection collection_handle error_out h s
        ≡ return success h' s)
      × Cleared error_out (write h collection_handle none) h'
      × ((t : S) → chroma_destroy_collection collection_handle error_out h' t ≡ Outcome.fault)
unfolding chroma_destroy_collection
destroy_collection_once h s c collection_handle error_out is_out ne apart at =
    let (h', eq, clear) = succeed_lem s (IsOut-free collection_handle apart is_out) in
    (
      h',
      rw
          (
            ==_false collection_handle null ne,
            take_rust_lem as_collection collection_handle h {c = collection c} refl at,
          )
          eq,
      clear,
      λ t.
          rw
            (
              ==_false collection_handle null ne,
              take_rust-none as_collection collection_handle h'
                  (freed_stays h collection_handle apart clear),
            )
            refl,
    )
