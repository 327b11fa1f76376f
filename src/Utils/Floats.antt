-- ===== src/Utils/Floats.antt =====
-- Arrays of floats: what is written is read back, and freeing gives the memory back.
use chroma_db_net.Prelude.{
  suc, ◌+◌, ◌<◌, ◌≡◌, refl, ap, ◌∙◌, fun_ext, false, Option, none, some, List, [], ◌∷◌, ◌++◌, map,
  arith, ==_refl, ==_false, length, replicate, set, set-append, append-cons, length-append,
}
use chroma_db_net.Memory.{
  Cell, cell_of, Heap, done, libc, floats, as_floats, update, write, grow, write_float, malloc,
  free_libc,
}
use chroma_db_net.Memory.Laws.{IsHeap, peek_lem, free_libc_lem}
use chroma_db_net.Memory.Structs.{Ptr, null, F32}
use chroma_db_net.Utils.{
  fill_floats, vec_f32_to_c_array, slice_of, from_raw_parts, c_array_to_vec_f32,
}

abbrev float_cell : List (Option F32) → Option Cell
float_cell slots = some (cell_of libc (floats slots))

write-write : (h : Heap) (a : Ptr) (x y : Option Cell) → write (write h a x) a y ≡ write h a y
write-write h a x y = λ k. record h { cell = same k }
  where
    same : update (update h.cell a x) a y ≡ update h.cell a y
    same = fun_ext λ q. ground arith

write_float_lem :
    (a i : Ptr) (x : F32) (slots : List (Option F32)) (h : Heap)
    → h.cell a ≡ float_cell slots
    → i < length slots
    → write_float a i x h ≡ done tt (write h a (float_cell (set slots i (some x))))
unfolding write_float
write_float_lem a i x slots h at inside = ground arith

-- The loop writes every element, each inside the array.
fill_floats_lem :
    (xs : List F32) (a : Ptr) (pre : List (Option F32)) (h : Heap)
    → h.cell a ≡ float_cell (pre ++ replicate (length xs) none)
    → fill_floats a (length pre) xs h ≡ done tt (write h a (float_cell (pre ++ map some xs)))
unfolding fill_floats
fill_floats_lem [] a pre h at = ap (done tt) (λ k. record h { cell = same k })
  where
    same : h.cell ≡ update h.cell a (float_cell (pre ++ []))
    same = fun_ext λ q. ground arith
fill_floats_lem (x ∷ xs) a pre h at =
    rw
      (
        write_float_lem a (length pre) x _ h at
            (omega (arith, length-append pre (none ∷ replicate (length xs) none))),
        set-append,
      )
      ((rw length-snoc at (
          fill_floats_lem xs a (pre ++ some x ∷ [])
            (write h a (float_cell (pre ++ some x ∷ replicate (length xs) none)))
            (rw (==_refl, append-cons))))
        ∙ ap (done tt) (
            write-write h a _ _
            ∙ ap (λ l. write h a (float_cell l)) (append-cons pre (some x) (map some xs))))
  where
    length-snoc : length (pre ++ some x ∷ []) ≡ length pre + 1
    length-snoc = omega (arith, length-append pre (some x ∷ []))

slice_of-map : (xs : List F32) → slice_of (length xs) (map some xs) ≡ some xs
unfolding slice_of
slice_of-map [] = refl
slice_of-map (x ∷ xs) = rw (slice_of-map xs)

-- On a valid heap where `malloc` succeeds, `vec_f32_to_c_array` of a list that is not empty returns
-- an array that `c_array_to_vec_f32` reads as the same floats, and freeing it leaves every block as
-- it was before.
pub read-vec_f32_to_c_array :
    (x : F32) (xs : List F32) (h : Heap)
    → IsHeap h
    → h.refuse h.next ≡ false
    → (a : Ptr) × (h' h'' : Heap) × (vec_f32_to_c_array (x ∷ xs) h ≡ done (a, length (x ∷ xs)) h')
      × (c_array_to_vec_f32 a (length (x ∷ xs)) h' ≡ done (x ∷ xs) h')
      × (free_libc a h' ≡ done tt h'')
      × ((p : Ptr) → h''.cell p ≡ h.cell p)
unfolding vec_f32_to_c_array malloc c_array_to_vec_f32 from_raw_parts
read-vec_f32_to_c_array x xs h heap accepted =
    let g = grow h (cell_of libc (floats (replicate (length (x ∷ xs)) none))) in
    let h' = write g h.next (float_cell (map some (x ∷ xs))) in
    (
      h.next,
      h',
      write h' h.next none,
      rw (
        ==_false (suc (length xs)) 0 (omega arith),
        accepted,
        ==_false h.next null heap.positive,
        fill_floats_lem (x ∷ xs) h.next [] g (rw ==_refl),
      ),
      rw (
        ==_false h.next null heap.positive,
        peek_lem as_floats h.next h' {o = libc} {c = floats (map some (x ∷ xs))}
            {a = map some (x ∷ xs)} refl (rw ==_refl),
        slice_of-map (x ∷ xs),
      ),
      free_libc_lem h.next h' {c = floats (map some (x ∷ xs))} (rw ==_refl),
      λ p. ground (arith, heap.unused p),
    )
