-- ===== src/Utils/RoundTrip.antt =====
-- UTF-8 texts without a NUL come back from C as they were.
use chroma_db_net.Prelude.{
  ◌≢◌, none, ==_false, ==_refl, ◌≡◌, refl, ap, ◌∙◌, false, List, [], ◌∷◌, map, Text, ok, arith,
  length,
}
use chroma_db_net.Memory.{Heap, done, fault, grow, write, cell_of, rust, chars, as_chars, alloc}
use chroma_db_net.Memory.Laws.{IsHeap, take_rust_lem, take_rust-none}
use chroma_db_net.Memory.Structs.{Ptr, null}
use chroma_db_net.Utf8.{IsUtf8}
use chroma_db_net.Utf8.Laws.{lossy-IsUtf8}
use chroma_db_net.Utils.{
  string_to_c_str, c_str_to_string, chroma_free_string, until_nul, has_nul, rust_text,
  vec_string_to_c_array, c_array_to_vec_string,
}
use chroma_db_net.Utils.Reading.{c_str_to_string_lem, seen, read-vec_string_to_c_array}

-- A Rust string that a C string can hold.
pub data IsPlain : List Text → Type 0 where
  none_left : IsPlain []
  plain : {s : Text} {ss : List Text} → IsUtf8 s → has_nul s ≡ false → IsPlain ss → IsPlain (s ∷ ss)

until_nul-has_nul : (s : Text) → has_nul s ≡ false → until_nul s ≡ s
unfolding until_nul has_nul
until_nul-has_nul [] e = refl
until_nul-has_nul (b ∷ s) e = ground (arith, until_nul-has_nul s)

map-seen : {ss : List Text} → IsPlain ss → map seen ss ≡ ss
unfolding rust_text
map-seen none_left = refl
map-seen (plain {s} {ss} utf8 whole more) =
    rw (whole, until_nul-has_nul s whole, lossy-IsUtf8 s utf8, map-seen more) refl

-- On a valid heap where `malloc` succeeds, a list of UTF-8 texts without a NUL that is not empty is
-- read by `c_array_to_vec_string` from what `vec_string_to_c_array` made of it exactly as it was.
pub read-vec_string_to_c_array-IsPlain :
    (s : Text) (ss : List Text) (h : Heap)
    → IsHeap h
    → h.refuse h.next ≡ false
    → IsPlain (s ∷ ss)
    → (a : Ptr) × (h' : Heap) × (vec_string_to_c_array (s ∷ ss) h ≡ done (a, length (s ∷ ss)) h')
      × (c_array_to_vec_string a (length (s ∷ ss)) h' ≡ done (ok (s ∷ ss)) h')
read-vec_string_to_c_array-IsPlain s ss h heap accepted all =
    let (a, h', made, read) = read-vec_string_to_c_array s ss h heap accepted in
    (a, h', made, read ∙ ap (λ l. done (ok l) h') (map-seen all))

-- To free a string twice.
free-freed : (p : Ptr) (h : Heap) → p ≢ null → h.cell p ≡ none → chroma_free_string p h ≡ fault
unfolding chroma_free_string
free-freed p h ne gone = rw (==_false p null ne, take_rust-none as_chars p h gone) refl

-- On a valid heap, `string_to_c_str` of a UTF-8 text without a NUL returns an address where no
-- block was, from which `c_str_to_string` reads the text as it was. `chroma_free_string` then
-- leaves every block as it was before, and to free the string again is a fault.
pub c_str_to_string-string_to_c_str :
    (t : Text) (h : Heap)
    → IsHeap h
    → IsUtf8 t
    → has_nul t ≡ false
    → (p : Ptr) × (h' h'' : Heap) × (string_to_c_str t h ≡ done p h')
      × (h.cell p ≡ none)
      × (c_str_to_string p h' ≡ done (ok t) h')
      × (chroma_free_string p h' ≡ done tt h'')
      × ((q : Ptr) → h''.cell q ≡ h.cell q)
      × (chroma_free_string p h'' ≡ fault)
unfolding string_to_c_str alloc rust_text chroma_free_string
c_str_to_string-string_to_c_str t h heap utf8 whole =
    let p = h.next in
    let h' = grow h (cell_of rust (chars t)) in
    (
      p,
      h',
      write h' p none,
      rw whole refl,
      heap.unused p (omega arith),
      c_str_to_string_lem p rust t h' heap.positive (rw ==_refl refl)
          ∙ ap (λ x. done (ok x) h') (rw (until_nul-has_nul t whole) (lossy-IsUtf8 t utf8)),
      rw
          (
            ==_false p null heap.positive,
            take_rust_lem as_chars p h' {c = chars t} refl (rw ==_refl refl),
          )
          refl,
      λ q. ground (arith, heap.unused q),
      free-freed p (write h' p none) heap.positive (rw ==_refl refl),
    )
