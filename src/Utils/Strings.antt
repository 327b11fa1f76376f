-- ===== src/Utils/Strings.antt =====
-- What `vec_string_to_c_array` leaves in memory: the strings at the next free addresses, in order,
-- and an array of their addresses, null for a text that holds a NUL.
use chroma_db_net.Prelude.{
  suc, ◌+◌, ◌<◌, ◌≤◌, ◌≡◌, refl, ap, ◌∙◌, fun_ext, false, Option, none, some, List, [], ◌∷◌, ◌++◌,
  map, arith, ◌==◌, if◌then◌else◌, inl, inr, Bool-cases, ◌≢◌, ==_refl, ==_false, Text, length,
  replicate, set, set-append, append-cons, length-append,
}
use chroma_db_net.Memory.{
  Cell, cell_of, Heap, done, rust, libc, pointers, chars, update, write, grow, write_slot, alloc,
  malloc,
}
use chroma_db_net.Memory.Structs.{Ptr, null}
use chroma_db_net.Utils.{has_nul, string_to_c_str, fill_strings, vec_string_to_c_array}

-- The pointers to texts that are placed from `lo` on.
unfoldable pub addresses : Ptr → List Text → List Ptr
addresses lo [] = []
addresses lo (s ∷ ss) =
    let skip = addresses lo ss in
    let rest = addresses (lo + 1) ss in if has_nul s then null ∷ skip else lo ∷ rest

-- The next free address behind them.
unfoldable pub after : Ptr → List Text → Ptr
after lo [] = lo
after lo (s ∷ ss) = after (if has_nul s then lo else lo + 1) ss

-- The memory with the texts in it.
unfoldable pub placed : List Text → Ptr → (Ptr → Option Cell) → Ptr → Option Cell
placed [] lo c = c
placed (s ∷ ss) lo c =
    let skip = placed ss lo c in
    let rest = placed ss (lo + 1) (update c lo (some (cell_of rust (chars s)))) in
    if has_nul s then skip else rest

pub placed-below :
    (ss : List Text) (lo : Ptr) (c : Ptr → Option Cell) (q : Ptr) → q < lo → placed ss lo c q ≡ c q
unfolding placed
placed-below [] lo c q h = refl
placed-below (s ∷ ss) lo c q h = ground (
  arith,
  placed-below ss lo c q,
  placed-below ss (lo + 1) (update c lo (some (cell_of rust (chars s)))) q,
)

pub placed-congr :
    (ss : List Text) (lo : Ptr) (c d : Ptr → Option Cell) (q : Ptr)
    → c q ≡ d q
    → placed ss lo c q ≡ placed ss lo d q
unfolding placed
placed-congr [] lo c d q h = h
placed-congr (s ∷ ss) lo c d q h = elim (Bool-cases (has_nul s)) [
  | inl e ↦ rw e (placed-congr ss lo c d q h)
  | inr e ↦ rw e (placed-congr ss (lo + 1) _ _ q (ground arith))
]

pub length-addresses : (ss : List Text) (lo : Ptr) → length (addresses lo ss) ≡ length ss
unfolding addresses
length-addresses [] lo = refl
length-addresses (s ∷ ss) lo = ground (arith, length-addresses ss lo, length-addresses ss (lo + 1))

pub le-after : (ss : List Text) (lo : Ptr) → lo ≤ after lo ss
unfolding after
le-after [] lo = omega arith
le-after (s ∷ ss) lo = ground (arith, le-after ss lo, le-after ss (lo + 1))

abbrev array_cell : List (Option Ptr) → Option Cell
array_cell slots = some (cell_of libc (pointers slots))

-- The heap when the loop ends.
abbrev pub filled : Ptr → List (Option Ptr) → List Text → Heap → Heap
filled a pre ss h = record h {
  next = after h.next ss;
  cell =
      update (placed ss h.next h.cell) a
        (some (cell_of libc (pointers (pre ++ map some (addresses h.next ss)))));
}

write_slot_lem :
    (a i p : Ptr) (slots : List (Option Ptr)) (h : Heap)
    → h.cell a ≡ array_cell slots
    → i < length slots
    → write_slot a i p h ≡ done tt (write h a (array_cell (set slots i (some p))))
unfolding write_slot
write_slot_lem a i p slots h at inside = ground arith

update_self : (c : Ptr → Option Cell) (a : Ptr) (x : Option Cell) → c a ≡ x → c ≡ update c a x
update_self c a x h = fun_ext λ q. ground arith

rewrite_placed :
    (ss : List Text) (lo a : Ptr) (c : Ptr → Option Cell) (x y : Option Cell)
    → update (placed ss lo (update c a x)) a y ≡ update (placed ss lo c) a y
rewrite_placed ss lo a c x y = fun_ext λ q. elim (Bool-cases (q == a)) [
  | inl e ↦ rw e
  | inr e ↦ rw e (placed-congr ss lo (update c a x) c q (rw e))
]

-- One element more in front of the loop.
filled-write :
    (a p : Ptr) (pre : List (Option Ptr)) (ss : List Text) (g : Heap) (x : Option Cell)
    → filled a (pre ++ some p ∷ []) ss (write g a x) ≡ record g {
      next = after g.next ss;
      cell =
          update
            (placed ss g.next g.cell)
            a
            (array_cell (pre ++ some p ∷ map some (addresses g.next ss)));
    }
filled-write a p pre ss g x = rw (append-cons, rewrite_placed)

fill_next :
    (a i p : Ptr) (pre : List (Option Ptr)) (ss : List Text) (g : Heap)
    → length pre ≡ i
    → g.cell a ≡ array_cell (pre ++ none ∷ replicate (length ss) none)
    → write_slot a i p g
      ≡ done tt (write g a (array_cell (pre ++ some p ∷ replicate (length ss) none)))
fill_next a i p pre ss g len at =
    write_slot_lem a i p _ g at
      (omega (arith, len, length-append pre (none ∷ replicate (length ss) none)))
    ∙ rw (← len, set-append)

-- The loop writes each element once, inside the array, and nothing else that was there before.
pub fill_strings_lem :
    (ss : List Text) (a i : Ptr) (pre : List (Option Ptr)) (h : Heap)
    → length pre ≡ i
    → a < h.next
    → h.cell a ≡ some (cell_of libc (pointers (pre ++ replicate (length ss) none)))
    → fill_strings a i ss h ≡ done tt (filled a pre ss h)
unfolding fill_strings addresses after placed string_to_c_str alloc
fill_strings_lem [] a i pre h len below at =
    ap (done tt) (λ k. record h { cell = update_self h.cell a _ at k })
fill_strings_lem (s ∷ ss) a i pre h len below at =
    let length' : (p : Ptr) → length (pre ++ some p ∷ []) ≡ i + 1 =
      λ p. omega (arith, len, length-append pre (some p ∷ [])) in
    elim (Bool-cases (has_nul s)) [
      | inl e ↦
          let g = write h a (array_cell (pre ++ some null ∷ replicate (length ss) none)) in
          rw (e, fill_next a i null pre ss h len at)
            (fill_strings_lem ss a (i + 1) (pre ++ some null ∷ []) g (length' null) below
                (rw (==_refl, append-cons))
              ∙ ap (done tt) (filled-write a null pre ss h _))
      | inr e ↦
          let h' = grow h (cell_of rust (chars s)) in
          let g = write h' a (array_cell (pre ++ some h.next ∷ replicate (length ss) none)) in
          rw (e, fill_next a i h.next pre ss h' len (ground arith))
            (fill_strings_lem ss a (i + 1) (pre ++ some h.next ∷ []) g (length' h.next)
                (omega arith) (rw (==_refl, append-cons))
              ∙ ap (done tt) (filled-write a h.next pre ss h' _))
    ]

-- An array whose `malloc` succeeds.
pub vec_string_to_c_array_lem :
    (s : Text) (ss : List Text) (h : Heap)
    → h.next ≢ null
    → h.refuse h.next ≡ false
    → vec_string_to_c_array (s ∷ ss) h
      ≡ done
          (h.next, length (s ∷ ss))
          (filled h.next []
            (s ∷ ss)
            (grow h (cell_of libc (pointers (replicate (length (s ∷ ss)) none)))))
unfolding vec_string_to_c_array malloc
vec_string_to_c_array_lem s ss h ne ok =
    let h' = grow h (cell_of libc (pointers (replicate (length (s ∷ ss)) none))) in
    rw (
      ==_false (suc (length ss)) 0 (omega arith),
      ok,
      ==_false h.next null ne,
      fill_strings_lem (s ∷ ss) h.next 0 [] h' refl (omega arith) (rw ==_refl),
    )
