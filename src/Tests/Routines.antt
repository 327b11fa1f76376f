-- ===== src/Tests/Routines.antt =====
-- The routines on strings, numbers and errors in the memory of `Setup`.
use chroma_db_net.Prelude.{none, ◌≡◌, refl, some, [], ◌∷◌, Text, ok, ascii, arith, map}
use chroma_db_net.Memory.{fault, Heap, done, caller, pointer, free_libc}
use chroma_db_net.Memory.Structs.{Ptr, null, invalid_argument}
use chroma_db_net.Utf8.{start, valid}
use chroma_db_net.Utils.{
  string_to_c_str, c_str_to_string, chroma_free_string, has_nul, vec_string_to_c_array,
  c_array_to_vec_string, chroma_free_string_array, vec_f32_to_c_array, c_array_to_vec_f32,
}
use chroma_db_net.Utils.Reading.{seen, read-vec_string_to_c_array}
use chroma_db_net.Utils.Freeing.{free-vec_string_to_c_array}
use chroma_db_net.Utils.RoundTrip.{
  c_str_to_string-string_to_c_str, plain, none_left, read-vec_string_to_c_array-IsPlain,
}
use chroma_db_net.Utils.Floats.{read-vec_f32_to_c_array}
use chroma_db_net.Error.{set_error}
use chroma_db_net.Error.Reported.{Reported, set_error-Reported}
use chroma_db_net.Tests.Setup.{memory, memory-IsHeap}

abbrev a : Text
a = ascii "a"

-- A text with a NUL in it.
abbrev cut : Text
cut = 98 ∷ 0 ∷ 99 ∷ []

read-vec_string_to_c_array_example :
    (p : Ptr) × (h' : Heap) × (vec_string_to_c_array (a ∷ cut ∷ []) memory ≡ done (p, 2) h')
    × (c_array_to_vec_string p 2 h' ≡ done (ok (map seen (a ∷ cut ∷ []))) h')
read-vec_string_to_c_array_example =
    read-vec_string_to_c_array a (cut ∷ []) memory memory-IsHeap refl

free-vec_string_to_c_array_example :
    (p : Ptr) × (h' h'' : Heap) × (vec_string_to_c_array (a ∷ cut ∷ []) memory ≡ done (p, 2) h')
    × (chroma_free_string_array p 2 h' ≡ done tt h'')
    × ((q : Ptr) → h''.cell q ≡ memory.cell q)
free-vec_string_to_c_array_example =
    free-vec_string_to_c_array a (cut ∷ []) memory memory-IsHeap refl

read-vec_f32_to_c_array_example :
    (p : Ptr) × (h' h'' : Heap) × (vec_f32_to_c_array (7 ∷ 8 ∷ []) memory ≡ done (p, 2) h')
    × (c_array_to_vec_f32 p 2 h' ≡ done (7 ∷ 8 ∷ []) h')
    × (free_libc p h' ≡ done tt h'')
    × ((q : Ptr) → h''.cell q ≡ memory.cell q)
read-vec_f32_to_c_array_example = read-vec_f32_to_c_array 7 (8 ∷ []) memory memory-IsHeap refl

set_error-Reported_example :
    (h' : Heap) × (set_error 3 invalid_argument a cut (some a) memory ≡ done tt h')
    × Reported 3 invalid_argument a cut memory h'
set_error-Reported_example =
    set_error-Reported {o = caller} {c = pointer null} invalid_argument a cut (some a) memory-IsHeap
      (omega arith) refl

read-vec_string_to_c_array-IsPlain_example :
    (p : Ptr) × (h' : Heap) × (vec_string_to_c_array (a ∷ a ∷ []) memory ≡ done (p, 2) h')
    × (c_array_to_vec_string p 2 h' ≡ done (ok (a ∷ a ∷ [])) h')
unfolding start valid has_nul
read-vec_string_to_c_array-IsPlain_example =
    read-vec_string_to_c_array-IsPlain a (a ∷ []) memory memory-IsHeap refl
      (plain refl refl (plain refl refl none_left))

-- "é"
c_str_to_string-string_to_c_str_example :
    (p : Ptr) × (h' h'' : Heap) × (string_to_c_str (0xC3 ∷ 0xA9 ∷ []) memory ≡ done p h')
    × (memory.cell p ≡ none)
    × (c_str_to_string p h' ≡ done (ok (0xC3 ∷ 0xA9 ∷ [])) h')
    × (chroma_free_string p h' ≡ done tt h'')
    × ((q : Ptr) → h''.cell q ≡ memory.cell q)
    × (chroma_free_string p h'' ≡ fault)
unfolding start valid has_nul
c_str_to_string-string_to_c_str_example =
    c_str_to_string-string_to_c_str (0xC3 ∷ 0xA9 ∷ []) memory memory-IsHeap refl refl
