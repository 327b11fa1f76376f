-- ===== src/Ffi/Replies.antt =====
-- How a body answers: an early error leaves the memory as it was but for the report, and the
-- state untouched; a late one comes after the call of the frontend.
use chroma_db_net.Prelude.{
  ◌≡◌, ◌≢◌, refl, Bool, true, false, Option, none, some, ◌++◌, Text, Result, ok, err,
}
use chroma_db_net.Memory.{Heap, cell_of, Owner, pointer, chars, write}
use chroma_db_net.Memory.Laws.{IsHeap}
use chroma_db_net.Memory.Structs.{
  Ptr, null, ChromaErrorCode, success, invalid_argument, validation_error, invalid_uuid,
}
use chroma_db_net.Utils.{rust_text}
use chroma_db_net.Error.{set_error, set_success}
use chroma_db_net.Error.Reported.{
  Reported, IsOut, absent, place, set_error-Reported, set_success_lem,
}
use chroma_db_net.Ffi.{
  Outcome, value, return, Ffi, and_then, fail, succeed, or_fail, some_or_fail, when,
}

-- An error was reported, or there was nowhere to report it and nothing changed.
pub data Raised (out : Ptr) (code : ChromaErrorCode) (func_name : Text) (h h' : Heap) : Type 0 where
  quiet : out ≡ null → h' ≡ h → Raised out code func_name h h'
  loud :
      {message : Text} → Reported out code message func_name h h' → Raised out code func_name h h'

-- The codes of errors that are found before the frontend is called.
pub data IsEarly : ChromaErrorCode → Type 0 where
  argument : IsEarly invalid_argument
  validation : IsEarly validation_error
  uuid : IsEarly invalid_uuid

-- `*error_out` holds null, and no other block differs.
pub data Cleared (out : Ptr) (h h' : Heap) : Type 0 where
  nowhere : out ≡ null → h' ≡ h → Cleared out h h'
  cleared :
      (o : Owner)
      → out ≢ null
      → h' ≡ write h out (some (cell_of o (pointer null)))
      → Cleared out h h'

-- Where a body may read a C string.
pub data IsText (h : Heap) (p : Ptr) : Text → Type 0 where
  text_at :
      {o : Owner} {raw t : Text}
      → p ≢ null
      → h.cell p ≡ some (cell_of o (chars raw))
      → t ≡ rust_text raw
      → IsText h p t

module _ {S : Type 0} (out : Ptr) (func_name : Text) (h : Heap) where
  -- A piece of a body that only reads: it goes on with a value, or returns an early error.
  pub data Reads (s : S) {A : Type 0} (Q : A → Type 0) : Outcome S A → Type 0 where
    got : {a : A} → Q a → Reads s Q (value a h s)
    refused :
        {code : ChromaErrorCode} {h' : Heap}
        → IsEarly code
        → Raised out code func_name h h'
        → Reads s Q (return code h' s)

  -- A whole body: `late_code` is the code of an error of the frontend, `Sent` says what a call
  -- did to the state, by the frontend's answer, and `Post` what success leaves.
  pub data Ends {R : Type 0} (late_code : ChromaErrorCode) (s : S) (Sent : Result R → S → Type 0)
      (Post : R → Heap → Type 0) : Outcome S (Unit {0}) → Type 0 where
    early :
        {code : ChromaErrorCode} {h' : Heap}
        → IsEarly code
        → Raised out code func_name h h'
        → Ends late_code s Sent Post (return code h' s)
    late :
        {h' : Heap} {s' : S} (e : Text)
        → Sent (err e) s'
        → Raised out late_code func_name h h'
        → Ends late_code s Sent Post (return late_code h' s')
    succeeded :
        {h' : Heap} {s' : S} (r : R)
        → Sent (ok r) s'
        → Post r h'
        → Ends late_code s Sent Post (return success h' s')

module _ {S : Type 0} {out : Ptr} {func_name : Text} {h : Heap} where
  pub Reads-bind :
      {A B : Type 0} {s : S} {Q : A → Type 0} {R : B → Type 0} {r : Outcome S A} (k : A → Ffi S B)
      → Reads out func_name h s Q r
      → ((a : A) → Q a → Reads out func_name h s R (k a h s))
      → Reads out func_name h s R (and_then r k)
  Reads-bind k (got q) next = next _ q
  Reads-bind k (refused e r) next = refused e r

  pub Reads-mono :
      {A : Type 0} {s : S} {Q R : A → Type 0} {r : Outcome S A}
      → Reads out func_name h s Q r
      → ((a : A) → Q a → R a)
      → Reads out func_name h s R r
  Reads-mono (got q) weaken = got (weaken _ q)
  Reads-mono (refused e r) weaken = refused e r

  pub Ends-bind :
      {A R : Type 0} {late_code : ChromaErrorCode} {s : S} {Q : A → Type 0}
      {Sent : Result R → S → Type 0} {Post : R → Heap → Type 0} {r : Outcome S A}
      (k : A → Ffi S (Unit {0}))
      → Reads out func_name h s Q r
      → ((a : A) → Q a → Ends out func_name h late_code s Sent Post (k a h s))
      → Ends out func_name h late_code s Sent Post (and_then r k)
  Ends-bind k (got q) next = next _ q
  Ends-bind k (refused e r) next = early e r

module _ {S : Type 0} {out : Ptr} (func_name : Text) {h : Heap} (heap : IsHeap h)
    (is_out : IsOut h out) where
  -- `set_error` and the return that follows it.
  pub fail-Raised :
      {A : Type 0} (s : S) (code : ChromaErrorCode) (message : Text) (details : Option Text)
      → (h' : Heap) × (fail {A = A} out func_name code message details h s ≡ return code h' s)
        × Raised out code func_name h h'
  unfolding fail set_error
  fail-Raised {A} s code message details = go is_out
    where
      go :
          IsOut h out
          → (h' : Heap) × (fail {A = A} out func_name code message details h s ≡ return code h' s)
            × Raised out code func_name h h'
      go (absent e) = (h, rw (e, set_error), quiet e refl)
      go (place ne at) =
          let (h', eq, rep) = set_error-Reported code message func_name details heap ne at in
          (h', rw eq, loud rep)

  pub fail-Reads :
      {A : Type 0} {Q : A → Type 0} (s : S) {code : ChromaErrorCode} (message : Text)
      (details : Option Text)
      → IsEarly code
      → Reads out func_name h s Q (fail out func_name code message details h s)
  fail-Reads {A} {Q} s {code} message details is_early =
      let (h', eq, raised) = fail-Raised {A = A} s code message details in
      rw eq (refused is_early raised)

  pub when-Reads :
      (s : S) (bad : Bool) {code : ChromaErrorCode} (message : Text) (details : Option Text)
      → IsEarly code
      → Reads out func_name h s
          (λ _. bad ≡ false)
          (when bad (fail out func_name code message details) h s)
  when-Reads s true message details is_early = fail-Reads s message details is_early
  when-Reads s false message details is_early = got refl

  pub or_fail-Reads :
      {A : Type 0} (s : S) {code : ChromaErrorCode} (message prefix : Text) (r : Result A)
      → IsEarly code
      → Reads out func_name h s (λ a. r ≡ ok a) (or_fail out func_name code message prefix r h s)
  unfolding or_fail
  or_fail-Reads s message prefix (ok a) is_early = got refl
  or_fail-Reads s message prefix (err e) is_early = fail-Reads s message _ is_early

  pub some_or_fail-Reads :
      {A : Type 0} (s : S) {code : ChromaErrorCode} (message : Text) (r : Option A)
      → IsEarly code
      → Reads out func_name h s (λ a. r ≡ some a) (some_or_fail out func_name code message r h s)
  unfolding some_or_fail
  some_or_fail-Reads s message (some a) is_early = got refl
  some_or_fail-Reads s message none is_early = fail-Reads s message none is_early

  -- The end of a body, once the frontend has answered.
  pub or_fail-Ends :
      {A : Type 0} {s : S} (s' : S) {late_code : ChromaErrorCode} (message prefix : Text)
      (r : Result A) {Sent : Result A → S → Type 0} {Post : A → Heap → Type 0}
      (k : A → Ffi S (Unit {0}))
      → Sent r s'
      → ((a : A) → Sent (ok a) s' → Ends out func_name h late_code s Sent Post (k a h s'))
      → Ends out func_name h late_code s Sent Post
          (and_then (or_fail out func_name late_code message prefix r h s') k)
  unfolding or_fail
  or_fail-Ends s' message prefix (ok a) k sent next = next a sent
  or_fail-Ends {A} s' {late_code} message prefix (err e) k sent next =
      let (h', eq, raised) = fail-Raised {A = A} s' late_code message (some (prefix ++ e)) in
      rw eq (late e sent raised)

-- `set_success` and the return that follows it, from the heap that the body has made.
pub succeed_lem :
    {S : Type 0} {out : Ptr} {h : Heap} (s : S)
    → IsOut h out
    → (h' : Heap) × (succeed {A = Unit {0}} out h s ≡ return success h' s) × Cleared out h h'
unfolding succeed set_success
succeed_lem {h} s (absent e) = (h, rw (e, set_success), nowhere e refl)
succeed_lem {out} {h} s (place {o} ne at) = (
  write h out (some (cell_of o (pointer null))),
  rw (set_success_lem out h ne at),
  cleared o ne refl,
)
