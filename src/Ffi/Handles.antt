-- ===== src/Ffi/Handles.antt =====
-- Handles and results that a caller passes.
use chroma_db_net.Prelude.{
  ◌||◌, ◌≡◌, sym, none, ◌≢◌, refl, Bool, false, some, ◌==◌, Text, arith, ==_false, ==_refl, inl,
  inr, Bool-cases,
}
use chroma_db_net.Memory.{
  Heap, Cell, cell_of, Content, Owner, client, as_client, collection, as_collection, peek, write,
}
use chroma_db_net.Memory.Laws.{peek_lem}
use chroma_db_net.Memory.Structs.{Ptr, null, ChromaClient, ChromaCollection}
use chroma_db_net.Error.Reported.{IsOut, absent, place}
use chroma_db_net.Ffi.{mem}
use chroma_db_net.Ffi.Replies.{Cleared, nowhere, cleared, Reads, got}

-- A handle of a client: null, or one that was made and has not been destroyed.
pub data IsClient (h : Heap) (p : Ptr) (c : ChromaClient) : Type 0 where
  no_client : p ≡ null → IsClient h p c
  live_client : (o : Owner) → p ≢ null → h.cell p ≡ some (cell_of o (client c)) → IsClient h p c

pub data IsCollection (h : Heap) (p : Ptr) (c : ChromaCollection) : Type 0 where
  no_collection : p ≡ null → IsCollection h p c
  live_collection :
      (o : Owner) → p ≢ null → h.cell p ≡ some (cell_of o (collection c)) → IsCollection h p c

pub or-left : (a b : Bool) → (a || b) ≡ false → a ≡ false
or-left a b e = ground arith

pub or-right : (a b : Bool) → (a || b) ≡ false → b ≡ false
or-right a b e = ground arith

module _ {S : Type 0} {out : Ptr} (func_name : Text) {h : Heap} (s : S) {p : Ptr} where
  pub client-Reads :
      {c : ChromaClient}
      → IsClient h p c
      → (p == null) ≡ false
      → Reads out func_name h s (λ a. a ≡ c) (mem (peek as_client p) h s)
  client-Reads (no_client e) e' = ground arith
  client-Reads (live_client o ne at) e' = rw (peek_lem as_client p h refl at) (got refl)

  pub collection-Reads :
      {c : ChromaCollection}
      → IsCollection h p c
      → (p == null) ≡ false
      → Reads out func_name h s (λ a. a ≡ c) (mem (peek as_collection p) h s)
  collection-Reads (no_collection e) e' = ground arith
  collection-Reads (live_collection o ne at) e' = rw (peek_lem as_collection p h refl at) (got refl)

-- A write elsewhere leaves `*error_out` a place that can be written.
pub IsOut-write :
    {h : Heap} {out : Ptr} (p : Ptr) (c : Cell) → IsOut h out → IsOut (write h p (some c)) out
IsOut-write p c (absent e) = absent e
IsOut-write {h} {out} p c (place {o = o'} {c = c'} ne at) = elim (Bool-cases (out == p)) [
  | inl e ↦ place {o = c.owner} {c = c.content} ne (rw e)
  | inr e ↦ place {o = o'} {c = c'} ne (rw e at)
]

-- The place of a result that was found not to be null.
pub place-of :
    {h : Heap} {p : Ptr}
    → IsOut h p
    → (p == null) ≡ false
    → (o : Owner) × (c : Content) × (h.cell p ≡ some (cell_of o c))
place-of (absent e) e' = ground arith
place-of (place {o = o'} {c = c'} ne at) e' = (o', c', at)

-- So does the release of another block.
pub IsOut-free :
    {h : Heap} {out : Ptr} (p : Ptr) → out ≢ p → IsOut h out → IsOut (write h p none) out
IsOut-free p apart (absent e) = absent e
IsOut-free {h} {out} p apart (place {o} {c} ne at) =
    place {o = o} {c = c} ne (rw (==_false out p apart) at)

-- A block that was freed is not there when the call has returned.
pub freed_stays :
    (h : Heap) {h' : Heap} {out : Ptr} (p : Ptr)
    → out ≢ p
    → Cleared out (write h p none) h'
    → h'.cell p ≡ none
freed_stays h p apart (nowhere e e') = rw (e', ==_refl) refl
freed_stays h {out} p apart (cleared o ne e) =
    rw (e, ==_false p out (λ e'. apart (sym e')), ==_refl) refl
