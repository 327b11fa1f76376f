-- ===== src/Memory.antt =====
-- The memory that the native library shares with its callers: blocks at addresses, each with the
-- allocator that it came from, and commands that read, write, allocate and free them.
pub mod Structs
pub mod Laws
use chroma_db_net.Prelude.{
  ℕ, zero, suc, ◌+◌, Bool, true, false, Option, none, some, List, [], ◌∷◌, ◌==◌, if◌then◌else◌,
  Text, get_elem?, set, length, ltb,
}
use Structs.{
  Ptr, null, F32, ChromaError, ChromaQueryResult, ChromaCollection, ChromaClient, SqliteConfigFfi,
}

-- Who frees a block: Rust's allocator (`Box`, `CString`), `libc::free`, or the caller.
pub data Owner : Type 0 where
  rust libc caller : Owner

-- What a block holds. `none` in an array is an element that has not been written.
pub data Content : Type 0 where
  chars : Text → Content
  pointers : List (Option Ptr) → Content
  floats : List (Option F32) → Content
  pointer : Ptr → Content
  word : ℕ → Content
  error : ChromaError → Content
  query_result : ChromaQueryResult → Content
  collection : ChromaCollection → Content
  client : ChromaClient → Content
  sqlite_config : SqliteConfigFfi → Content

pub record Cell : Type 0 where
  pub owner : Owner
  pub content : Content

abbrev pub cell_of : Owner → Content → Cell
cell_of o c = record { owner = o; content = c }

-- Addresses from `next` on are unused. `malloc` returns null where `refuse` says so.
pub record Heap : Type 0 where
  pub next : Ptr
  pub cell : Ptr → Option Cell
  pub refuse : Ptr → Bool

pub data Run {ℓ} (A : Type ℓ) : Type ℓ where
  done : A → Heap → Run A
  fault : Run A

abbrev pub Mem {ℓ} : Type ℓ → Type ℓ
Mem A = Heap → Run A

abbrev pub pure {ℓ} : {A : Type ℓ} → A → Mem A
pure a h = done a h

module _ {ℓ κ} {A : Type ℓ} {B : Type κ} where
  abbrev pub and_then : Run A → (A → Mem B) → Run B
  and_then (done a h) k = k a h
  and_then fault k = fault

  infixl 5 ◌>>=◌ ◌>>◌
  abbrev pub ◌>>=◌ : Mem A → (A → Mem B) → Mem B
  m >>= k = λ h. and_then (m h) k

  abbrev pub ◌>>◌ : Mem A → Mem B → Mem B
  m >> n = m >>= λ _. n

abbrev pub update : (Ptr → Option Cell) → Ptr → Option Cell → Ptr → Option Cell
update f p c q = if q == p then c else f q

-- The heap with one block written or, by `none`, given back.
abbrev pub write : Heap → Ptr → Option Cell → Heap
write h p c = record h { cell = update h.cell p c }

-- The heap in which the next address holds a block.
abbrev pub grow : Heap → Cell → Heap
grow h c = record h { next = h.next + 1; cell = update h.cell h.next (some c) }

-- `Box::new` and `CString::into_raw`; a Rust allocation that fails ends the process.
unfoldable pub alloc : Content → Mem Ptr
alloc c h = done h.next (grow h (cell_of rust c))

-- `libc::malloc`
unfoldable pub malloc : Content → Mem Ptr
malloc c h =
    if h.refuse h.next
    then done null (record h { next = h.next + 1 })
    else done h.next (grow h (cell_of libc c))

-- A read through a dangling pointer, or at another type, is a fault.
unfoldable pub peek {ℓ} : {A : Type ℓ} → (Content → Option A) → Ptr → Mem A
peek view p h = elim (h.cell p) [
  | none ↦ fault
  | some c ↦ elim (view c.content) [ none ↦ fault | some a ↦ done a h ]
]

-- A write over a block that is there, which stays with its owner.
unfoldable pub poke : Ptr → Content → Mem (Unit {0})
poke p c h = elim (h.cell p) [
  | none ↦ fault
  | some old ↦ done tt (write h p (some (cell_of old.owner c)))
]

-- `Box::from_raw` and `CString::from_raw`, the value dropped at the end: a block of another
-- allocator or of another type is a fault.
unfoldable pub take_rust {ℓ} : {A : Type ℓ} → (Content → Option A) → Ptr → Mem A
take_rust view p h = elim (h.cell p) [
  | none ↦ fault
  | some c ↦ elim c.owner [
    | rust ↦ elim (view c.content) [ none ↦ fault | some a ↦ done a (write h p none) ]
    | _ ↦ fault
  ]
]

-- `libc::free`
unfoldable pub free_libc : Ptr → Mem (Unit {0})
free_libc p h = elim (h.cell p) [
  | none ↦ fault
  | some c ↦ elim c.owner [ libc ↦ done tt (write h p none) | _ ↦ fault ]
]

-- The type at which a block is read.
abbrev pub as_chars : Content → Option Text
as_chars (chars x) = some x
as_chars _ = none

abbrev pub as_pointers : Content → Option (List (Option Ptr))
as_pointers (pointers x) = some x
as_pointers _ = none

abbrev pub as_floats : Content → Option (List (Option F32))
as_floats (floats x) = some x
as_floats _ = none

abbrev pub as_pointer : Content → Option Ptr
as_pointer (pointer x) = some x
as_pointer _ = none

abbrev pub as_word : Content → Option ℕ
as_word (word x) = some x
as_word _ = none

abbrev pub as_error : Content → Option ChromaError
as_error (error x) = some x
as_error _ = none

abbrev pub as_query_result : Content → Option ChromaQueryResult
as_query_result (query_result x) = some x
as_query_result _ = none

abbrev pub as_collection : Content → Option ChromaCollection
as_collection (collection x) = some x
as_collection _ = none

abbrev pub as_client : Content → Option ChromaClient
as_client (client x) = some x
as_client _ = none

abbrev pub as_sqlite_config : Content → Option SqliteConfigFfi
as_sqlite_config (sqlite_config x) = some x
as_sqlite_config _ = none

-- Element `i` of an array of pointers.
unfoldable pub read_slot : Ptr → ℕ → Mem Ptr
unfolding peek
read_slot array i h = elim (peek as_pointers array h) [
  | fault ↦ fault
  | done slots h' ↦ elim (get_elem? slots i) [
    | none ↦ fault
    | some slot ↦ elim slot [ none ↦ fault | some p ↦ done p h' ]
  ]
]

-- A write of element `i`, a fault past the end.
unfoldable pub write_slot : Ptr → ℕ → Ptr → Mem (Unit {0})
unfolding peek poke
write_slot array i p h = elim (peek as_pointers array h) [
  | fault ↦ fault
  | done slots h' ↦
      if ltb i (length slots) then poke array (pointers (set slots i (some p))) h' else fault
]

unfoldable pub write_float : Ptr → ℕ → F32 → Mem (Unit {0})
unfolding peek poke
write_float array i x h = elim (peek as_floats array h) [
  | fault ↦ fault
  | done slots h' ↦
      if ltb i (length slots) then poke array (floats (set slots i (some x))) h' else fault
]
