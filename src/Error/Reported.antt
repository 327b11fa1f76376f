-- ===== src/Error/Reported.antt =====
-- What a caller finds when a call has reported an error or success.
use chroma_db_net.Prelude.{
  ◌<◌, ◌≡◌, ◌≢◌, refl, true, false, Option, some, arith, ==_refl, ==_false, Text,
}
use chroma_db_net.Memory.{
  Content, Cell, cell_of, Heap, done, Owner, rust, chars, error, pointer, write,
}
use chroma_db_net.Memory.Laws.{IsHeap, poke_lem}
use chroma_db_net.Memory.Structs.{Ptr, null, ChromaErrorCode, ChromaError}
use chroma_db_net.Utils.{has_nul}
use chroma_db_net.Error.{set_error, set_success, chroma_free_error}
use chroma_db_net.Error.Setting

-- A text at a pointer: null if it has a NUL in it, and its bytes in a block of Rust if not.
abbrev pub TextAt : (Ptr → Option Cell) → Ptr → Text → Type 0
TextAt c p t =
    (has_nul t ≡ true → p ≡ null) × (has_nul t ≡ false → c p ≡ some (cell_of rust (chars t)))

-- An error of that code at `out`, with its message and source; all else is as before, and so it
-- is when the error has been freed.
pub record Reported (out : Ptr) (code : ChromaErrorCode) (message source : Text) (h h' : Heap)
    : Type 0 where
  pub address : Ptr
  pub found : ChromaError
  pub owner : Owner
  pub slot : h'.cell out ≡ some (cell_of owner (pointer address))
  pub boxed_at : h'.cell address ≡ some (cell_of rust (error found))
  pub code_eq : found.code ≡ code
  pub message_at : TextAt h'.cell found.message message
  pub source_at : TextAt h'.cell found.source source
  pub kept : (q : Ptr) → q < h.next → q ≢ out → h'.cell q ≡ h.cell q
  pub after : Heap
  pub released : chroma_free_error address h' ≡ done tt after
  pub no_leak : (q : Ptr) → q ≢ out → after.cell q ≡ h.cell q

-- `*error_out` before a call: null, or a place that the caller owns.
pub data IsOut (h : Heap) (out : Ptr) : Type 0 where
  absent : out ≡ null → IsOut h out
  place : {o : Owner} {c : Content} → out ≢ null → h.cell out ≡ some (cell_of o c) → IsOut h out

pub lt-next : {h : Heap} {p : Ptr} {c : Cell} → IsHeap h → h.cell p ≡ some c → p < h.next
lt-next {h} {p} heap at = ground (arith, heap.unused p)

module _ {h : Heap} {out : Ptr} {o : Owner} {c : Content} (code : ChromaErrorCode)
    (message source : Text) (details : Option Text) (heap : IsHeap h) (ne : out ≢ null)
    (at : h.cell out ≡ some (cell_of o c)) where
  -- On a valid heap, with a writable place at `error_out`, `set_error` leaves there an error of
  -- that code with the message and the source (null if they have a NUL), and changes no other old
  -- block. `chroma_free_error` of it succeeds and leaves every block but `*error_out` as it was
  -- before.
  pub set_error-Reported :
      (h' : Heap) × (set_error out code message source details h ≡ done tt h')
      × Reported out code message source h h'
  set_error-Reported = (
    Setting.error_heap code message source details h out o,
    Setting.set_error_lem code message source details h out ne (lt-next heap at) at,
    record {
      address = Setting.boxed code message source details h;
      found = Setting.made code message source details h;
      owner = o;
      slot = rw ==_refl;
      boxed_at = rw (
        ==_false (Setting.boxed code message source details h) out
            (omega (arith, Setting.le-boxed code message source details h, lt-next heap at)),
        ==_refl,
      );
      code_eq = refl;
      message_at = Setting.found_message code message source details h out o (lt-next heap at);
      source_at = Setting.found_source code message source details h out o (lt-next heap at);
      kept = λ q below ne'. Setting.error_heap-kept code message source details h out o q below ne';
      after = record (Setting.error_heap code message source details h out o) {
        cell = Setting.freed code message source details h out o;
      };
      released = Setting.free_error_lem code message source details h out o heap (lt-next heap at);
      no_leak = λ q ne'.
          Setting.freed_lem code message source details h out o q heap (lt-next heap at) ne';
    },
  )

-- `set_success` writes null, and only that.
pub set_success_lem :
    (out : Ptr) (h : Heap) {o : Owner} {c : Content}
    → out ≢ null
    → h.cell out ≡ some (cell_of o c)
    → set_success out h ≡ done tt (write h out (some (cell_of o (pointer null))))
unfolding set_success
set_success_lem out h ne at = rw (==_false out null ne) (poke_lem out (pointer null) h at)
