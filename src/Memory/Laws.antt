-- ===== src/Memory/Laws.antt =====
-- The commands at blocks that are there.
use chroma_db_net.Prelude.{◌≤◌, ◌≡◌, ◌≢◌, Option, none, some, List, arith, get_elem?}
use chroma_db_net.Memory.{
  fault, Content, pointers, Cell, cell_of, Heap, done, Owner, rust, libc, write, peek, poke,
  take_rust, free_libc, read_slot,
}
use chroma_db_net.Memory.Structs.{Ptr, null}

-- What every heap of the program is: null is no block, and nothing lies above `next`.
pub record IsHeap (h : Heap) : Type 0 where
  pub positive : h.next ≢ null
  pub unused : (p : Ptr) → h.next ≤ p → h.cell p ≡ none
  pub null_none : h.cell null ≡ none

module _ {ℓ} {A : Type ℓ} (view : Content → Option A) (p : Ptr) (h : Heap) where
  pub peek_lem :
      {o : Owner} {c : Content} {a : A}
      → view c ≡ some a
      → h.cell p ≡ some (cell_of o c)
      → peek view p h ≡ done a h
  unfolding peek
  peek_lem seen at = ground arith

  pub take_rust_lem :
      {c : Content} {a : A}
      → view c ≡ some a
      → h.cell p ≡ some (cell_of rust c)
      → take_rust view p h ≡ done a (write h p none)
  unfolding take_rust
  take_rust_lem seen at = ground arith

  -- A block that is not there cannot be taken back.
  pub take_rust-none : h.cell p ≡ none → take_rust view p h ≡ fault
  unfolding take_rust
  take_rust-none gone = ground arith

pub poke_lem :
    (p : Ptr) (c : Content) (h : Heap) {old : Cell}
    → h.cell p ≡ some old
    → poke p c h ≡ done tt (write h p (some (cell_of old.owner c)))
unfolding poke
poke_lem p c h at = ground arith

pub free_libc_lem :
    (p : Ptr) (h : Heap) {c : Content}
    → h.cell p ≡ some (cell_of libc c)
    → free_libc p h ≡ done tt (write h p none)
unfolding free_libc
free_libc_lem p h at = ground arith

pub read_slot_lem :
    (a i p : Ptr) (o : Owner) (slots : List (Option Ptr)) (h : Heap)
    → h.cell a ≡ some (cell_of o (pointers slots))
    → get_elem? slots i ≡ some (some p)
    → read_slot a i h ≡ done p h
unfolding read_slot
read_slot_lem a i p o slots h at get = ground arith
