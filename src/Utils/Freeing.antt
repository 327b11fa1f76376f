-- ===== src/Utils/Freeing.antt =====
-- `chroma_free_string_array` gives back all that `vec_string_to_c_array` allocated.
use chroma_db_net.Prelude.{
  ◌+◌, ◌<◌, ◌≤◌, ◌≡◌, ◌≢◌, refl, ◌∙◌, sym, false, Option, none, some, List, [], ◌∷◌, ◌++◌, map,
  arith, ◌==◌, if◌then◌else◌, inl, inr, Bool-cases, ==_refl, ==_false, Text, length, replicate,
  get_elem?-append, append-cons, length-snoc,
}
use chroma_db_net.Memory.{
  Cell, cell_of, Heap, done, Owner, rust, libc, pointers, chars, as_chars, update, write, grow,
}
use chroma_db_net.Memory.Laws.{IsHeap, take_rust_lem, free_libc_lem, read_slot_lem}
use chroma_db_net.Memory.Structs.{Ptr, null}
use chroma_db_net.Utils.{
  chroma_free_string, free_strings, chroma_free_string_array, has_nul, vec_string_to_c_array,
}
use chroma_db_net.Utils.Strings.{
  addresses, placed, placed-below, placed-congr, after, le-after, filled, vec_string_to_c_array_lem,
}

-- The memory without the texts from `lo` on.
unfoldable pub removed : List Text → Ptr → (Ptr → Option Cell) → Ptr → Option Cell
removed [] lo c = c
removed (s ∷ ss) lo c =
    let skip = removed ss lo c in
    let rest = removed ss (lo + 1) (update c lo none) in if has_nul s then skip else rest

abbrev pub without : Heap → List Text → Ptr → Heap
without h ss lo = record h { cell = removed ss lo h.cell }

removed-below :
    (ss : List Text) (lo : Ptr) (c : Ptr → Option Cell) (q : Ptr) → q < lo → removed ss lo c q ≡ c q
unfolding removed
removed-below [] lo c q h = refl
removed-below (s ∷ ss) lo c q h =
    ground (arith, removed-below ss lo c q, removed-below ss (lo + 1) (update c lo none) q)

-- The memory holds the texts from `lo` on, over some memory `c`.
abbrev HasPlaced : (Ptr → Option Cell) → List Text → Ptr → (Ptr → Option Cell) → Type 0
HasPlaced d ss lo c = (q : Ptr) → lo ≤ q → q < after lo ss → d q ≡ placed ss lo c q

free_string_null : (h : Heap) → chroma_free_string null h ≡ done tt h
unfolding chroma_free_string
free_string_null h = refl

free_string_lem :
    (p : Ptr) (s : Text) (h : Heap)
    → p ≢ null
    → h.cell p ≡ some (cell_of rust (chars s))
    → chroma_free_string p h ≡ done tt (write h p none)
unfolding chroma_free_string
free_string_lem p s h ne at = rw (==_false p null ne, take_rust_lem as_chars p h refl at)

-- The loop, from element `length pre` on, over an array that lies below the texts.
free_strings_lem :
    (ss : List Text) (a lo : Ptr) (o : Owner) (pre : List (Option Ptr)) (c : Ptr → Option Cell)
    (h : Heap)
    → lo ≢ null
    → a < lo
    → h.cell a ≡ some (cell_of o (pointers (pre ++ map some (addresses lo ss))))
    → HasPlaced h.cell ss lo c
    → free_strings a (length pre) (length ss) h ≡ done tt (without h ss lo)
unfolding free_strings addresses placed after removed
free_strings_lem [] a lo o pre c h ne below at texts = refl
free_strings_lem (s ∷ ss) a lo o pre c h ne below at texts = elim (Bool-cases (has_nul s)) [
  | inl e ↦
      let at' : h.cell a
          ≡ some (cell_of o (pointers (pre ++ some null ∷ map some (addresses lo ss)))) =
        rw e at at in
      rw
        (
          read_slot_lem a (length pre) null o _ h at' (get_elem?-append pre _ _),
          free_string_null h,
          e,
        )
        (rw (length-snoc pre (some null)) at (
          free_strings_lem ss a lo o (pre ++ some null ∷ []) c h ne below (rw append-cons at')
            (rw e at texts)))
  | inr e ↦
      let c' = update c lo (some (cell_of rust (chars s))) in
      let texts' : (q : Ptr) → lo ≤ q → q < after (lo + 1) ss → h.cell q ≡ placed ss (lo + 1) c' q =
        rw e at texts in
      let held : h.cell lo ≡ some (cell_of rust (chars s)) =
        texts' lo (omega arith) (omega (arith, le-after ss (lo + 1)))
        ∙ placed-below ss (lo + 1) c' lo (omega arith)
        ∙ rw ==_refl in
      let at' : h.cell a
          ≡ some (cell_of o (pointers (pre ++ some lo ∷ map some (addresses (lo + 1) ss)))) =
        rw e at at in
      rw
        (
          read_slot_lem a (length pre) lo o _ h at' (get_elem?-append pre _ _),
          free_string_lem lo s h ne held,
          e,
        )
        (rw (length-snoc pre (some lo)) at (
          free_strings_lem ss a (lo + 1) o (pre ++ some lo ∷ []) c' (write h lo none) (omega arith)
            (omega arith) (rw append-cons (ground arith))
            (λ q above inside. rw (==_false q lo (omega arith)) (texts' q (omega arith) inside))))
]

-- Freeing texts that were placed over a memory that was empty there gives that memory back.
removed-placed :
    (ss : List Text) (lo : Ptr) (c d : Ptr → Option Cell) (q : Ptr)
    → ((p : Ptr) → lo ≤ p → c p ≡ none)
    → d q ≡ placed ss lo c q
    → removed ss lo d q ≡ c q
unfolding removed placed
removed-placed [] lo c d q empty same = same
removed-placed (s ∷ ss) lo c d q empty same = elim (Bool-cases (has_nul s)) [
  | inl e ↦ rw e (removed-placed ss lo c d q empty (rw e at same))
  | inr e ↦
      let c' = update c lo (some (cell_of rust (chars s))) in
      let same' : d q ≡ placed ss (lo + 1) c' q = rw e at same in
      rw e (
        removed-placed ss (lo + 1) c (update d lo none) q (λ p above. empty p (omega arith))
          (elim (Bool-cases (q == lo)) [
            | inl here ↦
                rw (here, placed-below ss (lo + 1) c q (ground arith))
                  (sym (empty q (ground arith)))
            | inr away ↦ rw away (same' ∙ placed-congr ss (lo + 1) c' c q (rw away))
          ]))
]

-- On a valid heap where `malloc` succeeds, `chroma_free_string_array` of what
-- `vec_string_to_c_array` made of a list that is not empty succeeds and leaves every block as it
-- was before the array was made.
pub free-vec_string_to_c_array :
    (s : Text) (ss : List Text) (h : Heap)
    → IsHeap h
    → h.refuse h.next ≡ false
    → (a : Ptr) × (h' h'' : Heap) × (vec_string_to_c_array (s ∷ ss) h
        ≡ done (a, length (s ∷ ss)) h')
      × (chroma_free_string_array a (length (s ∷ ss)) h' ≡ done tt h'')
      × ((p : Ptr) → h''.cell p ≡ h.cell p)
unfolding chroma_free_string_array
free-vec_string_to_c_array s ss h heap accepted =
    let g = grow h (cell_of libc (pointers (replicate (length (s ∷ ss)) none))) in
    let h' = filled h.next [] (s ∷ ss) g in
    let lo = h.next + 1 in
    let k = without h' (s ∷ ss) lo in
    (
      h.next,
      h',
      write k h.next none,
      vec_string_to_c_array_lem s ss h heap.positive accepted,
      rw
          (
            ==_false h.next null heap.positive,
            free_strings_lem (s ∷ ss) h.next lo libc [] g.cell h' (omega arith) (omega arith)
                (rw ==_refl) (λ q above inside. ground arith),
          )
          (free_libc_lem h.next k {c = pointers (map some (addresses lo (s ∷ ss)))}
            (removed-below (s ∷ ss) lo h'.cell h.next (omega arith) ∙ rw ==_refl)),
      λ p. elim (Bool-cases (p == h.next)) [
        | inl at ↦ rw at (sym (heap.unused p (ground arith)))
        | inr away ↦ rw away (
            removed-placed (s ∷ ss) lo g.cell h'.cell p
              (λ q above. rw (==_false q h.next (omega arith)) (heap.unused q (omega arith)))
              (rw away)
            ∙ rw away)
      ],
    )
