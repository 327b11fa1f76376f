-- ===== src/Utils/Reading.antt =====
-- Reading arrays of strings, and that what `vec_string_to_c_array` wrote is read back.
use chroma_db_net.Prelude.{
  ◌+◌, ◌<◌, ◌≤◌, ◌≡◌, ◌≢◌, refl, ◌∙◌, false, Option, none, ok, some, List, [], ◌∷◌, ◌++◌, map,
  arith, if◌then◌else◌, inl, inr, Bool-cases, ==_refl, ==_false, Text, length, replicate,
  get_elem?-append, append-cons, length-append,
}
use mathlib.Core.List.{append-nil}
use chroma_db_net.Memory.{
  Cell, cell_of, Heap, done, Owner, rust, libc, pointers, chars, as_chars, update, grow,
}
use chroma_db_net.Memory.Laws.{IsHeap, peek_lem, read_slot_lem}
use chroma_db_net.Memory.Structs.{Ptr, null}
use chroma_db_net.Utils.{
  rust_text, c_str_to_string, collect_strings, c_array_to_vec_string, has_nul,
  vec_string_to_c_array,
}
use chroma_db_net.Utils.Strings.{
  addresses, placed, placed-below, after, le-after, filled, vec_string_to_c_array_lem,
  length-addresses,
}

-- Pointers to C strings and the Rust strings that they are read as; null is the empty string.
pub data Strings (c : Ptr → Option Cell) : List Ptr → List Text → Type 0 where
  nil : Strings c [] []
  no_text :
      {ps : List Ptr} {ts : List Text} {t : Text}
      → t ≡ []
      → Strings c ps ts
      → Strings c (null ∷ ps) (t ∷ ts)
  text :
      {p : Ptr} {ps : List Ptr} {o : Owner} {raw t : Text} {ts : List Text}
      → p ≢ null
      → c p ≡ some (cell_of o (chars raw))
      → t ≡ rust_text raw
      → Strings c ps ts
      → Strings c (p ∷ ps) (t ∷ ts)

-- An array in memory that begins with the given pointers.
pub record Array (c : Ptr → Option Cell) (a : Ptr) (ps : List Ptr) : Type 0 where
  pub owner : Owner
  pub rest : List (Option Ptr)
  pub holds : c a ≡ some (cell_of owner (pointers (map some ps ++ rest)))

pub c_str_to_string_lem :
    (p : Ptr) (o : Owner) (raw : Text) (h : Heap)
    → p ≢ null
    → h.cell p ≡ some (cell_of o (chars raw))
    → c_str_to_string p h ≡ done (ok (rust_text raw)) h
unfolding c_str_to_string
c_str_to_string_lem p o raw h ne at = rw (==_false p null ne, peek_lem as_chars p h refl at)

collect_strings_lem :
    (h : Heap) {ps : List Ptr} {ts : List Text} (a i : Ptr) (o : Owner)
    (pre rest : List (Option Ptr)) (acc : List Text)
    → Strings h.cell ps ts
    → length pre ≡ i
    → h.cell a ≡ some (cell_of o (pointers (pre ++ (map some ps ++ rest))))
    → collect_strings a i (length ps) acc h ≡ done (ok (acc ++ ts)) h
unfolding collect_strings
collect_strings_lem h a i o pre rest acc nil len at = rw append-nil
collect_strings_lem h a i o pre rest acc (no_text {ps} {ts} {t} e more) len at =
    rw
      (
        read_slot_lem a i null o (pre ++ some null ∷ (map some ps ++ rest)) h at
            (rw (← len) (get_elem?-append pre _ _)),
        e,
      )
      (collect_strings_lem h a (i + 1) o (pre ++ some null ∷ []) rest (acc ++ [] ∷ []) more
          (omega (arith, length-append pre (some null ∷ []), len)) (rw append-cons at)
        ∙ rw append-cons)
collect_strings_lem h a i o pre rest acc (text {p} {ps} {o = o'} {raw} ne holds e more) len at =
    rw
      (
        read_slot_lem a i p o (pre ++ some p ∷ (map some ps ++ rest)) h at
            (rw (← len) (get_elem?-append pre _ _)),
        ==_false p null ne,
        c_str_to_string_lem p o' raw h ne holds,
        e,
      )
      (collect_strings_lem h a (i + 1) o (pre ++ some p ∷ []) rest (acc ++ rust_text raw ∷ []) more
          (omega (arith, length-append pre (some p ∷ []), len)) (rw append-cons at)
        ∙ rw append-cons)

-- Reading an array that holds the pointers returns the strings and changes nothing.
pub c_array_to_vec_string_lem :
    {ps : List Ptr} {ts : List Text} (h : Heap) (a : Ptr)
    → a ≢ null
    → Array h.cell a ps
    → Strings h.cell ps ts
    → c_array_to_vec_string a (length ps) h ≡ done (ok ts) h
unfolding c_array_to_vec_string
c_array_to_vec_string_lem h a ne arr strs =
    rw (==_false a null ne) (collect_strings_lem h a 0 arr.owner [] arr.rest [] strs refl arr.holds)

-- What the reader of an array sees of a text that was written to it.
abbrev pub seen : Text → Text
seen s = if has_nul s then [] else rust_text s

Strings-placed :
    (ss : List Text) (lo : Ptr) (c d : Ptr → Option Cell)
    → lo ≢ null
    → ((q : Ptr) → lo ≤ q → q < after lo ss → d q ≡ placed ss lo c q)
    → Strings d (addresses lo ss) (map seen ss)
unfolding addresses placed after
Strings-placed [] lo c d ne same = nil
Strings-placed (s ∷ ss) lo c d ne same = elim (Bool-cases (has_nul s)) [
  | inl e ↦ rw e (no_text refl (Strings-placed ss lo c d ne (rw e at same)))
  | inr e ↦
      let c' = update c lo (some (cell_of rust (chars s))) in
      let same' : (q : Ptr) → lo ≤ q → q < after (lo + 1) ss → d q ≡ placed ss (lo + 1) c' q =
        rw e at same in
      let at : d lo ≡ some (cell_of rust (chars s)) =
        same' lo (omega arith) (omega (arith, le-after ss (lo + 1)))
        ∙ placed-below ss (lo + 1) c' lo (omega arith)
        ∙ rw ==_refl in
      rw e (
        text ne at refl
          (Strings-placed ss (lo + 1) c' d (omega arith) (λ q below. same' q (omega arith))))
]

-- On a valid heap where `malloc` succeeds, `vec_string_to_c_array` of a list that is not empty
-- returns an array of that length, which `c_array_to_vec_string` reads as the same texts in order,
-- each as it is seen in C: lossily decoded, and empty if it has a NUL.
pub read-vec_string_to_c_array :
    (s : Text) (ss : List Text) (h : Heap)
    → IsHeap h
    → h.refuse h.next ≡ false
    → (a : Ptr) × (h' : Heap) × (vec_string_to_c_array (s ∷ ss) h ≡ done (a, length (s ∷ ss)) h')
      × (c_array_to_vec_string a (length (s ∷ ss)) h' ≡ done (ok (map seen (s ∷ ss))) h')
read-vec_string_to_c_array s ss h heap accepted =
    let g = grow h (cell_of libc (pointers (replicate (length (s ∷ ss)) none))) in
    let h' = filled h.next [] (s ∷ ss) g in
    (
      h.next,
      h',
      vec_string_to_c_array_lem s ss h heap.positive accepted,
      rw (length-addresses (s ∷ ss) (h.next + 1)) at (
          c_array_to_vec_string_lem {ps = addresses (h.next + 1) (s ∷ ss)} h' h.next heap.positive
            (record { owner = libc; rest = []; holds = rw (==_refl, append-nil) })
            (Strings-placed (s ∷ ss) (h.next + 1) g.cell h'.cell (omega arith)
              (λ q below inside. ground arith))),
    )
