-- ===== src/Ffi/Texts.antt =====
-- String arguments.
use chroma_db_net.Prelude.{◌≡◌, ◌≢◌, ◌⊎◌, inl, inr, refl, Option, none, some, Text, ==_false}
use chroma_db_net.Memory.{Heap, cell_of, Owner, chars}
use chroma_db_net.Memory.Laws.{IsHeap}
use chroma_db_net.Memory.Structs.{Ptr, null}
use chroma_db_net.Utils.{c_str_to_string}
use chroma_db_net.Utils.Reading.{c_str_to_string_lem}
use chroma_db_net.Error.Reported.{IsOut}
use chroma_db_net.Ffi.{read_text, read_optional_text, read_text_or}
use chroma_db_net.Ffi.Replies.{Reads, got, argument, IsText, text_at, fail-Reads}

-- A string argument that may be read: null, or a C string of any owner.
pub data Readable (h : Heap) (p : Ptr) : Type 0 where
  null_arg : p ≡ null → Readable h p
  string_arg :
      (o : Owner) (raw : Text) → p ≢ null → h.cell p ≡ some (cell_of o (chars raw)) → Readable h p

-- The text that an argument stands for, with a default in place of null.
abbrev pub TextOr : Heap → Ptr → Text → Text → Type 0
TextOr h p default t = ((p ≡ null) × (t ≡ default)) ⊎ IsText h p t

-- The same with nothing in place of null.
pub data OptionalText (h : Heap) (p : Ptr) : Option Text → Type 0 where
  not_given : p ≡ null → OptionalText h p none
  given : {t : Text} → IsText h p t → OptionalText h p (some t)

module _ {S : Type 0} {out : Ptr} (func_name : Text) {h : Heap} (heap : IsHeap h)
    (is_out : IsOut h out) where
  pub read_text-Reads :
      (s : S) (message : Text) {p : Ptr}
      → Readable h p
      → Reads out func_name h s (IsText h p) (read_text out func_name message p h s)
  unfolding read_text c_str_to_string
  read_text-Reads s message (null_arg e) =
      rw e (fail-Reads func_name heap is_out s message _ argument)
  read_text-Reads s message {p} (string_arg o raw ne at) =
      rw (c_str_to_string_lem p o raw h ne at) (got (text_at ne at refl))

  pub read_text_or-Reads :
      (s : S) (default message : Text) {p : Ptr}
      → Readable h p
      → Reads out func_name h s
          (TextOr h p default)
          (read_text_or out func_name default message p h s)
  unfolding read_text_or
  read_text_or-Reads s default message (null_arg e) = rw e (got (inl (refl, refl)))
  read_text_or-Reads s default message {p} (string_arg o raw ne at) =
      rw (==_false p null ne, c_str_to_string_lem p o raw h ne at) (got (inr (text_at ne at refl)))

  pub read_optional_text-Reads :
      (s : S) (message : Text) {p : Ptr}
      → Readable h p
      → Reads out func_name h s (OptionalText h p) (read_optional_text out func_name message p h s)
  unfolding read_optional_text
  read_optional_text-Reads s message (null_arg e) = rw e (got (not_given refl))
  read_optional_text-Reads s message {p} (string_arg o raw ne at) =
      rw (==_false p null ne, c_str_to_string_lem p o raw h ne at)
        (got (given (text_at ne at refl)))
