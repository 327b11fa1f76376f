-- ===== src/Error/Setting.antt =====
-- The heap that `set_error` leaves, and what is left of it when the record is freed.
use chroma_db_net.Prelude.{
  ◌+◌, ◌<◌, ◌≤◌, ◌≡◌, ◌≢◌, true, Option, none, some, refl, ap, false, ◌∙◌, arith, ==_refl, ==_false,
  Text,
}
use chroma_db_net.Memory.{
  Content, Cell, cell_of, Heap, done, Owner, rust, chars, error, pointer, as_error, update, write,
  grow, alloc,
}
use chroma_db_net.Memory.Laws.{IsHeap, take_rust_lem, poke_lem}
use chroma_db_net.Memory.Structs.{Ptr, null, ChromaErrorCode, ChromaError}
use chroma_db_net.Utils.{has_nul}
use chroma_db_net.Error.{set_error, chroma_free_error}
use chroma_db_net.Error.Texts.{
  is_stored, bytes, text_ptr, text_next, with_text, without_text, text_heap, optional_c_str_lem,
  free_text, with_text-below, with_text-at, with_text_pointwise, without_text_pointwise,
  without_text-above, le-text_next, lt-text_next, text_ptr-stored, text_ptr-null, is_stored_lem,
}

module _ (code : ChromaErrorCode) (message source : Text) (details : Option Text) (h : Heap) where
  abbrev pub lo_source : Ptr
  lo_source = text_next (some message) h.next

  abbrev pub lo_details : Ptr
  lo_details = text_next (some source) lo_source

  -- The address of the error record.
  abbrev pub boxed : Ptr
  boxed = text_next details lo_details

  abbrev pub made : ChromaError
  made = record {
    code = code;
    message = text_ptr (some message) h.next;
    source = text_ptr (some source) lo_source;
    details = text_ptr details lo_details;
  }

  abbrev pub texts : Ptr → Option Cell
  texts =
      with_text details lo_details
        (with_text (some source) lo_source (with_text (some message) h.next h.cell))

  abbrev pub error_heap : Ptr → Owner → Heap
  error_heap out o = record h {
    next = boxed + 1;
    cell =
        update (update texts boxed (some (cell_of rust (error made)))) out
          (some (cell_of o (pointer boxed)));
  }

  pub le-boxed : h.next ≤ boxed
  le-boxed = omega (
    arith,
    le-text_next (some message) h.next,
    le-text_next (some source) lo_source,
    le-text_next details lo_details,
  )

  pub texts-below : (q : Ptr) → q < h.next → texts q ≡ h.cell q
  texts-below q below =
      with_text-below details lo_details _ q
        (omega (arith, le-text_next (some message) h.next, le-text_next (some source) lo_source))
      ∙ with_text-below (some source) lo_source _ q
          (omega (arith, le-text_next (some message) h.next))
      ∙ with_text-below (some message) h.next _ q below

  pub set_error_lem :
      (out : Ptr) {o : Owner} {c : Content}
      → out ≢ null
      → out < h.next
      → h.cell out ≡ some (cell_of o c)
      → set_error out code message source details h ≡ done tt (error_heap out o)
  unfolding set_error alloc
  set_error_lem out {o} {c} ne below at =
      let g = text_heap details (text_heap (some source) (text_heap (some message) h)) in
      let g' = grow g (cell_of rust (error made)) in
      rw
        (
          ==_false out null ne,
          optional_c_str_lem (some message) h,
          optional_c_str_lem (some source) _,
          optional_c_str_lem details _,
        )
        (poke_lem out (pointer boxed) g' {old = cell_of o c}
          (rw (==_false out boxed (omega (arith, le-boxed))) (texts-below out below ∙ at)))

  pub at_message :
      is_stored (some message) ≡ true → texts h.next ≡ some (cell_of rust (chars message))
  at_message st =
      with_text-below details lo_details _ h.next
        (omega (arith, lt-text_next (some message) h.next st, le-text_next (some source) lo_source))
      ∙ with_text-below (some source) lo_source _ h.next (lt-text_next (some message) h.next st)
      ∙ with_text-at (some message) h.next _ st

  pub at_source :
      is_stored (some source) ≡ true → texts lo_source ≡ some (cell_of rust (chars source))
  at_source st =
      with_text-below details lo_details _ lo_source (lt-text_next (some source) lo_source st)
      ∙ with_text-at (some source) lo_source _ st

  at_details :
      is_stored details ≡ true → texts lo_details ≡ some (cell_of rust (chars (bytes details)))
  at_details st = with_text-at details lo_details _ st

  -- A block between the old ones and the record, once the record is taken.
  taken-between :
      (out : Ptr) (o : Owner) (q : Ptr)
      → out < h.next
      → h.next ≤ q
      → q < boxed
      → (write (error_heap out o) boxed none).cell q ≡ texts q
  taken-between out o q below above inside =
      rw (==_false q boxed (omega arith), ==_false q out (omega arith))

  pub error_heap-kept :
      (out : Ptr) (o : Owner) (q : Ptr)
      → q < h.next
      → q ≢ out
      → (error_heap out o).cell q ≡ h.cell q
  error_heap-kept out o q below ne =
      rw (==_false q out ne, ==_false q boxed (omega (arith, le-boxed))) (texts-below q below)

  -- What is left when the record and its strings are freed.
  abbrev pub freed : Ptr → Owner → Ptr → Option Cell
  freed out o = without_text details lo_details (
      without_text (some source) lo_source
        (without_text (some message) h.next (update (error_heap out o).cell boxed none)))

  pub freed_lem :
      (out : Ptr) (o : Owner) (q : Ptr)
      → IsHeap h
      → out < h.next
      → q ≢ out
      → freed out o q ≡ h.cell q
  unfolding text_next
  freed_lem out o q heap below ne =
      simp (without_text_pointwise, with_text_pointwise) (ground (arith, heap.unused q))

  pub free_error_lem :
      (out : Ptr) (o : Owner)
      → IsHeap h
      → out < h.next
      → chroma_free_error boxed (error_heap out o)
        ≡ done tt (record (error_heap out o) { cell = freed out o })
  unfolding chroma_free_error
  free_error_lem out o heap below =
      let l₁ = le-text_next (some message) h.next in
      let l₂ = le-text_next (some source) lo_source in
      let l₃ = le-text_next details lo_details in
      let g = write (error_heap out o) boxed none in
      let g₁ = record g { cell = without_text (some message) h.next g.cell } in
      let g₂ = record g { cell = without_text (some source) lo_source g₁.cell } in
      rw (
        ==_false boxed null (omega (arith, le-boxed, heap.positive)),
        take_rust_lem as_error boxed (error_heap out o) {c = error made} refl
            (rw (==_false boxed out (omega (arith, le-boxed)), ==_refl)),
        free_text (some message) h.next g heap.positive (λ st.
            taken-between out o h.next below (omega arith)
              (omega (arith, lt-text_next (some message) h.next st, l₂, l₃))
            ∙ at_message st),
        free_text (some source) lo_source g₁
            (omega (arith, heap.positive, le-text_next (some message) h.next))
            (λ st.
              without_text-above (some message) h.next g.cell lo_source (omega arith)
              ∙ taken-between out o lo_source below l₁
                  (omega (arith, lt-text_next (some source) lo_source st, l₃))
              ∙ at_source st),
        free_text details lo_details g₂
            (omega (
              arith,
              heap.positive,
              le-text_next (some message) h.next,
              le-text_next (some source) lo_source,
            ))
            (λ st.
              without_text-above (some source) lo_source g₁.cell lo_details (omega arith)
              ∙ without_text-above (some message) h.next g.cell lo_details l₂
              ∙ taken-between out o lo_details below (omega (arith, l₁, l₂))
                  (lt-text_next details lo_details st)
              ∙ at_details st),
      )

  error_heap-between :
      (out : Ptr) (o : Owner) (q : Ptr)
      → out < h.next
      → h.next ≤ q
      → q < boxed
      → (error_heap out o).cell q ≡ texts q
  error_heap-between out o q below above inside =
      rw (==_false q out (omega arith), ==_false q boxed (omega arith))

  pub found_message :
      (out : Ptr) (o : Owner)
      → out < h.next
      → (has_nul message ≡ true → text_ptr (some message) h.next ≡ null)
        × (has_nul message ≡ false
            → (error_heap out o).cell (text_ptr (some message) h.next)
              ≡ some (cell_of rust (chars message)))
  found_message out o below = (
    text_ptr-null message h.next,
    λ e.
        let st = is_stored_lem message e in
        let l₁ = lt-text_next (some message) h.next st in
        ap (error_heap out o).cell (text_ptr-stored message h.next e)
        ∙ error_heap-between out o h.next below (omega arith) (
            omega
              (arith, l₁, le-text_next (some source) lo_source, le-text_next details lo_details))
        ∙ at_message st,
  )

  pub found_source :
      (out : Ptr) (o : Owner)
      → out < h.next
      → (has_nul source ≡ true → text_ptr (some source) lo_source ≡ null)
        × (has_nul source ≡ false
            → (error_heap out o).cell (text_ptr (some source) lo_source)
              ≡ some (cell_of rust (chars source)))
  found_source out o below = (
    text_ptr-null source lo_source,
    λ e.
        let st = is_stored_lem source e in
        let l₁ = lt-text_next (some source) lo_source st in
        ap (error_heap out o).cell (text_ptr-stored source lo_source e)
        ∙ error_heap-between out o lo_source below (le-text_next (some message) h.next)
            (omega (arith, l₁, le-text_next details lo_details))
        ∙ at_source st,
  )
