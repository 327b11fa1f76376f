-- ===== src/Collection/Arguments/Reading.antt =====
-- What the arguments of the document functions are read as.
use chroma_db_net.Prelude.{
  ℕ, ◌≡◌, ◌≢◌, inl, inr, refl, true, false, Option, none, some, List, [], ◌∷◌, ◌++◌, map, ◌==◌,
  if◌then◌else◌, Text, ascii, Result, ok, arith, length, ==_false, Bool-cases,
}
use chroma_db_net.Memory.{done, Heap, Cell, cell_of, Owner, floats, as_floats, chars}
use chroma_db_net.Memory.Laws.{IsHeap, peek_lem}
use chroma_db_net.Memory.Structs.{Ptr, null, F32}
use chroma_db_net.Utils.{rust_text, slice_of, from_raw_parts, c_array_to_vec_f32}
use chroma_db_net.Utils.Reading.{Strings, Array, c_str_to_string_lem, c_array_to_vec_string_lem}
use chroma_db_net.Error.Reported.{IsOut}
use chroma_db_net.Ffi.{pure, or_fail, value}
use chroma_db_net.Ffi.Replies.{Reads, got, validation, or_fail-Reads, Reads-bind}
use chroma_db_net.Collection.Arguments.{is_empty, at_index, read_ids, read_metadata, read_document}

-- An array of `n` strings, null strings among them, or no array.
pub data IsTexts (h : Heap) (p : Ptr) (n : ℕ) (ts : List Text) : Type 0 where
  no_texts : p ≡ null → IsTexts h p n ts
  texts_at :
      (ps : List Ptr)
      → p ≢ null
      → Array h.cell p ps
      → length ps ≡ n
      → Strings h.cell ps ts
      → IsTexts h p n ts

-- Pointers to embeddings of `dim` floats, or null.
pub data Vectors (c : Ptr → Option Cell) (dim : ℕ)
    : List Ptr → List (Option (List F32)) → Type 0 where
  nil : Vectors c dim [] []
  no_vector :
      {ps : List Ptr} {vs : List (Option (List F32))}
      → Vectors c dim ps vs
      → Vectors c dim (null ∷ ps) (none ∷ vs)
  vector :
      {p : Ptr} {ps : List Ptr} (o : Owner) (v : List F32) (rest : List (Option F32))
      {vs : List (Option (List F32))}
      → p ≢ null
      → c p ≡ some (cell_of o (floats (map some v ++ rest)))
      → length v ≡ dim
      → Vectors c dim ps vs
      → Vectors c dim (p ∷ ps) (some v ∷ vs)

-- An array of `n` embeddings, or no array.
pub data IsVectors (h : Heap) (p : Ptr) (n dim : ℕ) (vs : List (Option (List F32))) : Type 0 where
  no_vectors : p ≡ null → IsVectors h p n dim vs
  vectors_at :
      (ps : List Ptr)
      → p ≢ null
      → Array h.cell p ps
      → length ps ≡ n
      → Vectors h.cell dim ps vs
      → IsVectors h p n dim vs

-- An empty string is no metadata; any other is parsed.
pub data Parsed {M : Type 0} (parse : Text → Result M) (t : Text) : Option M → Type 0 where
  blank : t ≡ [] → Parsed parse t none
  parsed : {m : M} → t ≢ [] → parse t ≡ ok m → Parsed parse t (some m)

-- An empty string is no document.
unfoldable pub document_of : Text → Option Text
document_of t = if is_empty t then none else some t

pub is_empty-eq : (t : Text) → is_empty t ≡ true → t ≡ []
unfolding is_empty
is_empty-eq [] e = refl
is_empty-eq (b ∷ t) e = ground arith

is_empty-ne : (t : Text) → is_empty t ≡ false → t ≢ []
unfolding is_empty
is_empty-ne [] e = λ _. ground arith
is_empty-ne (b ∷ t) e = λ h. ground arith

pub document_of-blank : (t : Text) → t ≡ [] → none ≡ document_of t
unfolding document_of is_empty
document_of-blank t e = rw e

pub slice_of-map :
    (v : List F32) (rest : List (Option F32)) → slice_of (length v) (map some v ++ rest) ≡ some v
unfolding slice_of
slice_of-map [] rest = refl
slice_of-map (x ∷ v) rest = rw (slice_of-map v rest)

pub c_array_to_vec_f32_lem :
    (h : Heap) (p : Ptr) (o : Owner) (v : List F32) (rest : List (Option F32)) {dim : ℕ}
    → p ≢ null
    → h.cell p ≡ some (cell_of o (floats (map some v ++ rest)))
    → length v ≡ dim
    → c_array_to_vec_f32 p dim h ≡ done v h
unfolding c_array_to_vec_f32 from_raw_parts
c_array_to_vec_f32_lem h p o v rest ne at len = rw (
  ==_false p null ne,
  peek_lem as_floats p h {a = map some v ++ rest} refl at,
  ← len,
  slice_of-map v rest,
)

module _ {S : Type 0} {out : Ptr} (func_name : Text) {h : Heap} (heap : IsHeap h)
    (is_out : IsOut h out) (s : S) where
  pub read_ids-Reads :
      {p : Ptr} {n : ℕ} {ts : List Text}
      → IsTexts h p n ts
      → (p == null) ≡ false
      → Reads out func_name h s (λ a. a ≡ ts) (read_ids out func_name p n h s)
  unfolding read_ids or_fail
  read_ids-Reads (no_texts e) ne = ground arith
  read_ids-Reads {p} {ts} (texts_at ps ne arr len strs) _ =
      rw (← len, c_array_to_vec_string_lem {ps = ps} {ts = ts} h p ne arr strs) (got refl)

  pub read_metadata-Reads :
      {M : Type 0} (parse : Text → Result M) (i : ℕ) {p : Ptr} {o : Owner} {raw t : Text}
      → p ≢ null
      → h.cell p ≡ some (cell_of o (chars raw))
      → t ≡ rust_text raw
      → Reads out func_name h s (Parsed parse t) (read_metadata out func_name parse i p h s)
  unfolding read_metadata or_fail
  read_metadata-Reads parse i {p} {o = o'} {raw} {t} ne held e =
      rw (==_false p null ne, c_str_to_string_lem p o' raw h ne held, ← e)
        (elim (Bool-cases (is_empty t)) [
          | inl b ↦ rw b (got (blank (is_empty-eq t b)))
          | inr b ↦ rw b (
              Reads-bind (λ m. pure (some m))
                (or_fail-Reads func_name heap is_out s (ascii "Invalid metadata JSON")
                  (at_index (ascii "Error parsing metadata at index ") i) (parse t) validation)
                (λ m pm. got (parsed (is_empty-ne t b) pm)))
        ])

  pub read_document-Reads :
      (i : ℕ) {p : Ptr} {o : Owner} {raw t : Text}
      → p ≢ null
      → h.cell p ≡ some (cell_of o (chars raw))
      → t ≡ rust_text raw
      → Reads out func_name h s (λ d. d ≡ document_of t) (read_document out func_name i p h s)
  unfolding read_document or_fail document_of
  read_document-Reads i {p} {o = o'} {raw} ne held e =
      rw (==_false p null ne, c_str_to_string_lem p o' raw h ne held) (got (rw e))

  pub read_metadata-null :
      {M : Type 0} (parse : Text → Result M) (i : ℕ)
      → read_metadata out func_name parse i null h s ≡ value none h s
  unfolding read_metadata
  read_metadata-null parse i = refl

  pub read_document-null : (i : ℕ) → read_document out func_name i null h s ≡ value none h s
  unfolding read_document
  read_document-null i = refl
