-- ===== src/Utils.antt =====
-- src/utils/mod.rs: strings and arrays between Rust and C.
pub mod Strings
pub mod Reading
pub mod Freeing
pub mod Floats
pub mod RoundTrip
use chroma_db_net.Prelude.{
  ℕ, zero, suc, ◌+◌, Bool, false, ◌||◌, Option, none, some, List, [], ◌∷◌, ◌++◌, ◌==◌,
  if◌then◌else◌, Text, ascii, Result, ok, err, length, replicate,
}
use chroma_db_net.Utf8.{lossy}
use chroma_db_net.Memory.{
  Mem, fault, pure, ◌>>=◌, ◌>>◌, Content, chars, pointers, floats, alloc, malloc, peek, take_rust,
  free_libc, as_chars, as_floats, read_slot, write_slot, write_float,
}
use chroma_db_net.Memory.Structs.{Ptr, null, F32}

abbrev pub default_database : Text
default_database = ascii "default_database"

abbrev pub default_tenant : Text
default_tenant = ascii "default_tenant"

-- A C string ends at its first NUL.
unfoldable pub until_nul : Text → Text
until_nul [] = []
until_nul (b ∷ bs) = if b == 0 then [] else b ∷ until_nul bs

unfoldable pub has_nul : Text → Bool
has_nul [] = false
has_nul (b ∷ bs) = b == 0 || has_nul bs

-- What `to_string_lossy` makes of a C string's bytes.
unfoldable pub rust_text : Text → Text
rust_text t = lossy (until_nul t)

unfoldable pub c_str_to_string : Ptr → Mem (Result Text)
c_str_to_string s =
    if s == null
    then pure (err (ascii "Null string pointer"))
    else do t ← peek as_chars s; pure (ok (rust_text t))

-- `CString::new` refuses a text with a NUL inside.
unfoldable pub string_to_c_str : Text → Mem Ptr
string_to_c_str s = if has_nul s then pure null else alloc (chars s)

unfoldable pub chroma_free_string : Ptr → Mem (Unit {0})
chroma_free_string s = if s == null then pure tt else do take_rust as_chars s; pure tt

-- The loop from element `i` on, with the elements that are left.
unfoldable pub free_strings : Ptr → ℕ → ℕ → Mem (Unit {0})
free_strings array i zero = pure tt
free_strings array i (suc left) = do
  p ← read_slot array i
  chroma_free_string p
  free_strings array (i + 1) left

unfoldable pub chroma_free_string_array : Ptr → ℕ → Mem (Unit {0})
chroma_free_string_array array count =
    if array == null then pure tt else do free_strings array 0 count; free_libc array

-- The loop that fills the array from element `i` on.
unfoldable pub fill_strings : Ptr → ℕ → List Text → Mem (Unit {0})
fill_strings array i [] = pure tt
fill_strings array i (s ∷ ss) = do
  p ← string_to_c_str s
  write_slot array i p
  fill_strings array (i + 1) ss

unfoldable pub vec_string_to_c_array : List Text → Mem (Ptr × ℕ)
vec_string_to_c_array strings =
    let count = length strings in
    if count == 0 then pure (null, 0) else do
      array ← malloc (pointers (replicate count none))
      if array == null then pure (null, 0) else do fill_strings array 0 strings; pure (array, count)

-- The loop from element `i` on; a null element is an empty string.
unfoldable pub collect_strings : Ptr → ℕ → ℕ → List Text → Mem (Result (List Text))
collect_strings array i zero result = pure (ok result)
collect_strings array i (suc left) result = do
  c_str ← read_slot array i
  pushed ← if c_str == null then pure (ok []) else c_str_to_string c_str
  elim pushed [
    | err e ↦ pure (err e)
    | ok s ↦ collect_strings array (i + 1) left (result ++ s ∷ [])
  ]

unfoldable pub c_array_to_vec_string : Ptr → ℕ → Mem (Result (List Text))
c_array_to_vec_string array count =
    if array == null then pure (ok []) else collect_strings array 0 count []

-- The first `count` elements of a block, all of them written.
unfoldable pub slice_of : ℕ → List (Option F32) → Option (List F32)
slice_of zero slots = some []
slice_of (suc n) [] = none
slice_of (suc n) (none ∷ slots) = none
slice_of (suc n) (some x ∷ slots) = elim (slice_of n slots) [
  | none ↦ none
  | some xs ↦ some (x ∷ xs)
]

unfoldable pub or_fault : Option (List F32) → Mem (List F32)
or_fault none h = fault
or_fault (some xs) h = pure xs h

-- `std::slice::from_raw_parts`, which a block of fewer elements makes a fault.
unfoldable pub from_raw_parts : Ptr → ℕ → Mem (List F32)
unfolding or_fault
from_raw_parts array count = do slots ← peek as_floats array; or_fault (slice_of count slots)

unfoldable pub c_array_to_vec_f32 : Ptr → ℕ → Mem (List F32)
c_array_to_vec_f32 array count = if array == null then pure [] else from_raw_parts array count

unfoldable pub fill_floats : Ptr → ℕ → List F32 → Mem (Unit {0})
fill_floats array i [] = pure tt
fill_floats array i (x ∷ xs) = do write_float array i x; fill_floats array (i + 1) xs

unfoldable pub vec_f32_to_c_array : List F32 → Mem (Ptr × ℕ)
vec_f32_to_c_array values =
    let count = length values in
    if count == 0 then pure (null, 0) else do
      array ← malloc (floats (replicate count none))
      if array == null then pure (null, 0) else do fill_floats array 0 values; pure (array, count)
