-- ===== src/Ffi.antt =====
-- The body of an exported function: it works on memory and on the state behind the frontend, and
-- an early return ends it with its code.
pub mod Replies
pub mod Texts
pub mod Handles
pub mod Delivery
pub mod Accepted
use chroma_db_net.Prelude.{
  Bool, Option, none, some, [], ◌++◌, ◌==◌, if◌then◌else◌, Text, Result, ok, err,
}
use chroma_db_net.Memory.{Mem, Run, done, Heap}
use chroma_db_net.Memory.Structs.{Ptr, null, ChromaErrorCode, success, invalid_argument}
use chroma_db_net.Utils.{c_str_to_string}
use chroma_db_net.Error.{set_error, set_success}

-- What a piece of a body does: it goes on with a value, it returns a code, or it is a fault.
pub data Outcome (S A : Type 0) : Type 0 where
  value : A → Heap → S → Outcome S A
  return : ChromaErrorCode → Heap → S → Outcome S A
  fault : Outcome S A

abbrev pub Ffi : Type 0 → Type 0 → Type 0
Ffi S A = Heap → S → Outcome S A

abbrev pub pure : {S A : Type 0} → A → Ffi S A
pure a h s = value a h s

module _ {S A B : Type 0} where
  abbrev pub and_then : Outcome S A → (A → Ffi S B) → Outcome S B
  and_then (value a h s) k = k a h s
  and_then (return code h s) k = return code h s
  and_then fault k = fault

  infixl 5 ◌>>=◌ ◌>>◌
  abbrev pub ◌>>=◌ : Ffi S A → (A → Ffi S B) → Ffi S B
  m >>= k = λ h s. and_then (m h s) k

  abbrev pub ◌>>◌ : Ffi S A → Ffi S B → Ffi S B
  m >> n = m >>= λ _. n

-- A command on memory alone.
abbrev pub on_memory : {S A : Type 0} → Run A → S → Outcome S A
on_memory (done a h) s = value a h s
on_memory Run.fault s = fault

abbrev pub mem : {S A : Type 0} → Mem A → Ffi S A
mem m h s = on_memory (m h) s

-- A call of the frontend, which cannot reach the callers' memory.
abbrev pub call : {S A : Type 0} → (S → A × S) → Ffi S A
call f h s = let (a, s') = f s in value a h s'

abbrev returning : {S A : Type 0} → ChromaErrorCode → Run (Unit {0}) → S → Outcome S A
returning code (done a h) s = return code h s
returning code Run.fault s = fault

-- `set_error(...); return code as c_int`
unfoldable pub fail : {S A : Type 0} → Ptr → Text → ChromaErrorCode → Text → Option Text → Ffi S A
fail error_out func_name code message details h s =
    returning code (set_error error_out code message func_name details h) s

-- `set_success(error_out); Success as c_int`
unfoldable pub succeed : {S A : Type 0} → Ptr → Ffi S A
succeed error_out h s = returning success (set_success error_out h) s

-- `match r { Ok(a) => a, Err(e) => { set_error(...); return ... } }`, where the details print `e`
-- behind a prefix.
unfoldable pub or_fail :
    {S A : Type 0} → Ptr → Text → ChromaErrorCode → Text → Text → Result A → Ffi S A
or_fail error_out func_name code message prefix (ok a) = pure a
or_fail error_out func_name code message prefix (err e) =
    fail error_out func_name code message (some (prefix ++ e))

-- The same for an `Option`, with no details.
unfoldable pub some_or_fail :
    {S A : Type 0} → Ptr → Text → ChromaErrorCode → Text → Option A → Ffi S A
some_or_fail error_out func_name code message (some a) = pure a
some_or_fail error_out func_name code message none = fail error_out func_name code message none

-- `if bad { set_error(...); return ... }`
abbrev pub when : {S : Type 0} → Bool → Ffi S (Unit {0}) → Ffi S (Unit {0})
when bad leave = if bad then leave else pure tt

module _ {S : Type 0} (error_out : Ptr) (func_name : Text) where
  -- A string argument: the error is that of `c_str_to_string`.
  unfoldable pub read_text : Text → Ptr → Ffi S Text
  unfolding or_fail
  read_text message p = do
    r ← mem (c_str_to_string p)
    or_fail error_out func_name invalid_argument message [] r

  -- A string argument that may be null.
  unfoldable pub read_optional_text : Text → Ptr → Ffi S (Option Text)
  unfolding read_text
  read_optional_text message p =
      if p == null then pure none else do t ← read_text message p; pure (some t)

  -- A string argument with a default in place of null.
  unfoldable pub read_text_or : Text → Text → Ptr → Ffi S Text
  unfolding read_text
  read_text_or default message p = if p == null then pure default else read_text message p
