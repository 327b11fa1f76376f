-- ===== src/Ffi/Delivery.antt =====
-- A body that hands a new block over through an out parameter.
use chroma_db_net.Prelude.{
  ◌<◌, ◌≡◌, ◌≢◌, ◌∙◌, ap, Option, none, some, Bool-cases, inl, inr, Text, ==_false, ==_refl, arith,
}
use chroma_db_net.Memory.{
  Heap, Cell, cell_of, Content, Owner, rust, pointer, poke, write, grow, done,
}
use chroma_db_net.Memory.Laws.{IsHeap, poke_lem}
use chroma_db_net.Memory.Structs.{Ptr}
use chroma_db_net.Utils.{has_nul}
use chroma_db_net.Error.Texts.{
  text_ptr, text_heap, with_text-below, with_text-at, text_ptr-stored, text_ptr-null, is_stored_lem,
}
use chroma_db_net.Error.Reported.{IsOut, absent, place, lt-next, TextAt}
use chroma_db_net.Ffi.Handles.{IsOut-write}

-- `*result` points to an address where something holds and no block was before; the blocks of
-- before are as they were.
pub record Delivered (result : Ptr) (Holds : (Ptr → Option Cell) → Ptr → Type 0) (h k : Heap)
    : Type 0 where
  pub address : Ptr
  pub owner : Owner
  pub slot : k.cell result ≡ some (cell_of owner (pointer address))
  pub holds : Holds k.cell address
  pub fresh : h.cell address ≡ none
  pub kept : (q : Ptr) → q < h.next → q ≢ result → k.cell q ≡ h.cell q

-- The blocks of before are as they were.
abbrev pub KeepsBelow : Heap → Heap → Type 0
KeepsBelow h g = (q : Ptr) → q < h.next → g.cell q ≡ h.cell q

pub IsOut-keeps : {h g : Heap} {out : Ptr} → IsHeap h → KeepsBelow h g → IsOut h out → IsOut g out
IsOut-keeps heap keeps (absent e) = absent e
IsOut-keeps {out} heap keeps (place {o = o'} {c = c'} ne at) =
    place {o = o'} {c = c'} ne (keeps out (lt-next heap at) ∙ at)

module _ {h : Heap} (heap : IsHeap h) {result out : Ptr} {o : Owner} {c : Content}
    (at : h.cell result ≡ some (cell_of o c)) (is_out : IsOut h out) where
  -- A new box.
  pub deliver_box :
      (boxed : Content)
      → (k : Heap) × (poke result (pointer h.next) (grow h (cell_of rust boxed)) ≡ done tt k)
        × Delivered result (λ cell p. cell p ≡ some (cell_of rust boxed)) h k
        × IsOut k out
  deliver_box boxed =
      let g = grow h (cell_of rust boxed) in
      let keeps : KeepsBelow h g = λ q below. rw (==_false q h.next (omega arith)) in
      let below = lt-next heap at in
      (
        write g result (some (cell_of o (pointer h.next))),
        poke_lem result (pointer h.next) g {old = cell_of o c} (keeps result below ∙ at),
        record {
          address = h.next;
          owner = o;
          slot = rw ==_refl;
          holds = rw (==_false h.next result (omega arith), ==_refl);
          fresh = heap.unused h.next (omega arith);
          kept = λ q below' ne. rw (==_false q result ne) (keeps q below');
        },
        IsOut-write result _ (IsOut-keeps heap keeps is_out),
      )

  -- A new string.
  pub deliver_text :
      (t : Text)
      → (k : Heap) × (poke result (pointer (text_ptr (some t) h.next)) (text_heap (some t) h)
          ≡ done tt k)
        × Delivered result (λ cell p. TextAt cell p t) h k
        × IsOut k out
  deliver_text t =
      let g = text_heap (some t) h in
      let keeps : KeepsBelow h g = λ q below. with_text-below (some t) h.next h.cell q below in
      let below = lt-next heap at in
      let k = write g result (some (cell_of o (pointer (text_ptr (some t) h.next)))) in
      (
        k,
        poke_lem result (pointer (text_ptr (some t) h.next)) g {old = cell_of o c}
            (keeps result below ∙ at),
        record {
          address = text_ptr (some t) h.next;
          owner = o;
          slot = rw ==_refl;
          holds = (
            text_ptr-null t h.next,
            λ e.
                ap k.cell (text_ptr-stored t h.next e)
                ∙ rw (==_false h.next result (omega arith))
                    (with_text-at (some t) h.next h.cell (is_stored_lem t e)),
          );
          fresh = elim (Bool-cases (has_nul t)) [
            | inl e ↦ ap h.cell (text_ptr-null t h.next e) ∙ heap.null_none
            | inr e ↦ ap h.cell (text_ptr-stored t h.next e) ∙ heap.unused h.next (omega arith)
          ];
          kept = λ q below' ne. rw (==_false q result ne) (keeps q below');
        },
        IsOut-write result _ (IsOut-keeps heap keeps is_out),
      )
