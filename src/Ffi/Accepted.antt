-- ===== src/Ffi/Accepted.antt =====
-- Pieces of a body that go on, for arguments in order.
use chroma_db_net.Prelude.{◌≡◌, ◌≢◌, inl, inr, refl, Text, ==_false}
use chroma_db_net.Memory.{Heap}
use chroma_db_net.Memory.Structs.{Ptr, null}
use chroma_db_net.Utils.Reading.{c_str_to_string_lem}
use chroma_db_net.Ffi.{value, read_text, read_text_or, or_fail}
use chroma_db_net.Ffi.Replies.{IsText, text_at}
use chroma_db_net.Ffi.Texts.{TextOr}

pub IsText-ne : {h : Heap} {p : Ptr} {t : Text} → IsText h p t → p ≢ null
IsText-ne (text_at ne at e) = ne

module _ {S : Type 0} (out : Ptr) (func_name : Text) {h : Heap} (s : S) where
  pub read_text_lem :
      (message : Text) {p : Ptr} {t : Text}
      → IsText h p t
      → read_text out func_name message p h s ≡ value t h s
  unfolding read_text or_fail
  read_text_lem message {p} (text_at {o} {raw} ne at e) =
      rw (c_str_to_string_lem p o raw h ne at, e) refl

  pub read_text_or_lem :
      (default message : Text) {p : Ptr} {t : Text}
      → TextOr h p default t
      → read_text_or out func_name default message p h s ≡ value t h s
  unfolding read_text_or
  read_text_or_lem default message (inl (e, e')) = rw (e, e') refl
  read_text_or_lem default message {p} (inr is_t) =
      rw (==_false p null (IsText-ne is_t)) (read_text_lem message is_t)
