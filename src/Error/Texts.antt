-- ===== src/Error/Texts.antt =====
-- One text of an error record: allocated unless it is absent or has a NUL in it, and freed again.
use chroma_db_net.Prelude.{
  ◌+◌, ◌<◌, ◌≤◌, ◌≡◌, ◌≢◌, refl, Bool, true, false, ◌&&◌, Option, none, some, [], arith, ◌==◌,
  if◌then◌else◌, inl, inr, Bool-cases, ==_refl, ==_false, Text,
}
use chroma_db_net.Memory.{Cell, cell_of, Heap, done, rust, chars, as_chars, update, alloc}
use chroma_db_net.Memory.Laws.{take_rust_lem}
use chroma_db_net.Memory.Structs.{Ptr, null}
use chroma_db_net.Utils.{has_nul, string_to_c_str, chroma_free_string}
use chroma_db_net.Error.{optional_c_str}

-- Whether a text gets a block of its own: it is there and has no NUL in it.
unfoldable pub is_stored : Option Text → Bool
is_stored none = false
is_stored (some t) = if has_nul t then false else true

abbrev pub bytes : Option Text → Text
bytes none = []
bytes (some t) = t

unfoldable pub text_ptr : Option Text → Ptr → Ptr
text_ptr t lo = if is_stored t then lo else null

unfoldable pub text_next : Option Text → Ptr → Ptr
text_next t lo = if is_stored t then lo + 1 else lo

unfoldable pub with_text : Option Text → Ptr → (Ptr → Option Cell) → Ptr → Option Cell
with_text t lo c = if is_stored t then update c lo (some (cell_of rust (chars (bytes t)))) else c

unfoldable pub without_text : Option Text → Ptr → (Ptr → Option Cell) → Ptr → Option Cell
without_text t lo c = if is_stored t then update c lo none else c

abbrev pub text_heap : Option Text → Heap → Heap
text_heap t h = record h { next = text_next t h.next; cell = with_text t h.next h.cell }

pub optional_c_str_lem :
    (t : Option Text) (h : Heap) → optional_c_str t h ≡ done (text_ptr t h.next) (text_heap t h)
unfolding string_to_c_str alloc is_stored text_ptr text_next with_text
optional_c_str_lem none h = refl
optional_c_str_lem (some t) h = elim (Bool-cases (has_nul t)) [ inl e ↦ rw e | inr e ↦ rw e ]

pub free_text :
    (t : Option Text) (lo : Ptr) (h : Heap)
    → lo ≢ null
    → (is_stored t ≡ true → h.cell lo ≡ some (cell_of rust (chars (bytes t))))
    → chroma_free_string (text_ptr t lo) h ≡ done tt (record h { cell = without_text t lo h.cell })
unfolding chroma_free_string text_ptr without_text
free_text t lo h ne held = elim (Bool-cases (is_stored t)) [
  | inl e ↦ rw (e, ==_false lo null ne, take_rust_lem as_chars lo h refl (held e))
  | inr e ↦ rw e
]

pub with_text-below :
    (t : Option Text) (lo : Ptr) (c : Ptr → Option Cell) (q : Ptr)
    → q < lo
    → with_text t lo c q ≡ c q
unfolding with_text
with_text-below t lo c q h = ground arith

pub with_text-at :
    (t : Option Text) (lo : Ptr) (c : Ptr → Option Cell)
    → is_stored t ≡ true
    → with_text t lo c lo ≡ some (cell_of rust (chars (bytes t)))
unfolding with_text
with_text-at t lo c h = rw (h, ==_refl)

pub with_text_pointwise :
    (t : Option Text) (lo : Ptr) (c : Ptr → Option Cell) (q : Ptr)
    → with_text t lo c q
      ≡ (if is_stored t && q == lo then some (cell_of rust (chars (bytes t))) else c q)
unfolding with_text
with_text_pointwise t lo c q = elim (Bool-cases (is_stored t)) [ inl e ↦ rw e | inr e ↦ rw e ]

pub without_text_pointwise :
    (t : Option Text) (lo : Ptr) (c : Ptr → Option Cell) (q : Ptr)
    → without_text t lo c q ≡ (if is_stored t && q == lo then none else c q)
unfolding without_text
without_text_pointwise t lo c q = elim (Bool-cases (is_stored t)) [ inl e ↦ rw e | inr e ↦ rw e ]

pub without_text-above :
    (t : Option Text) (lo : Ptr) (c : Ptr → Option Cell) (q : Ptr)
    → text_next t lo ≤ q
    → without_text t lo c q ≡ c q
unfolding text_next
without_text-above t lo c q above = rw without_text_pointwise (ground arith)

pub le-text_next : (t : Option Text) (lo : Ptr) → lo ≤ text_next t lo
unfolding text_next
le-text_next t lo = ground arith

pub lt-text_next : (t : Option Text) (lo : Ptr) → is_stored t ≡ true → lo < text_next t lo
unfolding text_next
lt-text_next t lo h = ground arith

pub text_ptr-stored : (t : Text) (lo : Ptr) → has_nul t ≡ false → text_ptr (some t) lo ≡ lo
unfolding text_ptr is_stored
text_ptr-stored t lo e = rw e

pub text_ptr-null : (t : Text) (lo : Ptr) → has_nul t ≡ true → text_ptr (some t) lo ≡ null
unfolding text_ptr is_stored
text_ptr-null t lo e = rw e

pub is_stored_lem : (t : Text) → has_nul t ≡ false → is_stored (some t) ≡ true
unfolding is_stored
is_stored_lem t e = rw e
