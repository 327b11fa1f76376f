-- ===== src/Client/Lifetime.antt =====
-- The heartbeat and the end of a client.
use chroma_db_net.Prelude.{
  if◌then◌else◌, arith, ℕ, ◌⊎◌, inl, inr, Bool-cases, true, false, Result, ok, err, ◌||◌, ◌%◌, ◌^◌,
  ◌≡◌, ◌≢◌, refl, none, some, ◌==◌, Text, ascii, ==_false,
}
use chroma_db_net.Memory.{Heap, rust, cell_of, client, as_client, write, word}
use chroma_db_net.Memory.Laws.{IsHeap, poke_lem, take_rust_lem, take_rust-none}
use chroma_db_net.Memory.Structs.{
  invalid_argument, internal_error, Ptr, null, ChromaClient, success,
}
use chroma_db_net.Error.Reported.{IsOut}
use chroma_db_net.Ffi.{Outcome, return, or_fail}
use chroma_db_net.Ffi.Replies.{Raised, fail-Raised, Cleared, succeed_lem}
use chroma_db_net.Ffi.Handles.{or-right, place-of, IsOut-write, IsOut-free, freed_stays}
use chroma_db_net.Chroma.{Chroma}
use chroma_db_net.Client.{chroma_heartbeat, chroma_destroy_client}
use chroma_db_net.Collection.Reads.Count.{WordDelivered}

module _ (C : Chroma) where
  open C use {State}

  -- The three ways in which a heartbeat ends.
  pub data Beats (h : Heap) (s : State) (handle result error_out : Ptr)
      : Outcome State (Unit {0}) → Type 0 where
    refused :
        {h' : Heap}
        → (handle ≡ null) ⊎ (result ≡ null)
        → Raised error_out invalid_argument (ascii "chroma_heartbeat") h h'
        → Beats h s handle result error_out (return invalid_argument h' s)
    no_time :
        {h' : Heap} {s' : State} {e : Text}
        → handle ≢ null
        → result ≢ null
        → C.now s ≡ (err e, s')
        → Raised error_out internal_error (ascii "chroma_heartbeat") h h'
        → Beats h s handle result error_out (return internal_error h' s')
    beat :
        {h' : Heap} {s' : State} {n : ℕ}
        → handle ≢ null
        → result ≢ null
        → C.now s ≡ (ok n, s')
        → WordDelivered h result error_out (n % 2 ^ 64) h'
        → Beats h s handle result error_out (return success h' s')

  -- On a valid heap, with null or writable places behind both out pointers, `chroma_heartbeat` does
  -- not fault: with a null client or result it returns an invalid argument, which is reported at
  -- `error_out` unless that is null, and the state is as it was. Otherwise the clock is read once:
  -- if that fails, internal error is returned and reported likewise; if not, the code is success,
  -- the nanoseconds modulo 2^64 stand at `result`, and only that and `*error_out` changed, the
  -- latter to null.
  pub heartbeat-Beats :
      (h : Heap) (s : State) (handle result error_out : Ptr)
      → IsHeap h
      → IsOut h error_out
      → IsOut h result
      → Beats h s handle result error_out (chroma_heartbeat C handle result error_out h s)
  unfolding chroma_heartbeat or_fail
  heartbeat-Beats h s handle result error_out heap is_out is_result =
      elim (Bool-cases (handle == null || result == null)) [
        | inl bad ↦
            let (h', eq, raised) =
              fail-Raised func heap is_out {A = Unit {0}} s invalid_argument
                (if handle == null
                  then ascii "Client handle pointer is null"
                  else ascii "Result pointer is null")
                none in
            rw (bad, eq) (refused (null-or bad) raised)
        | inr good ↦ read good (C.now s).0 (C.now s).1 refl
      ]
    where
      func : Text
      func = ascii "chroma_heartbeat"

      null-or : (handle == null || result == null) ≡ true → (handle ≡ null) ⊎ (result ≡ null)
      null-or bad = elim (Bool-cases (handle == null)) [
        | inl e ↦ inl (ground arith)
        | inr e ↦ inr (ground arith)
      ]

      read :
          (handle == null || result == null) ≡ false
          → (r : Result ℕ) (s' : State) → C.now s ≡ (r, s')
          → Beats h s handle result error_out (chroma_heartbeat C handle result error_out h s)
      read good (err e) s' now =
          let (h', eq, raised) =
            fail-Raised func heap is_out {A = ℕ} s' internal_error
              (ascii "Failed to get system time") (some e) in
          rw (good, now, eq) (no_time (ground arith) (ground arith) now raised)
      read good (ok n) s' now =
          let (o, content, at) = place-of is_result (or-right (handle == null) _ good) in
          let (h', eq, clear) =
            succeed_lem s' (IsOut-write result (cell_of o (word (n % 2 ^ 64))) is_out) in
          rw (good, now, poke_lem result (word (n % 2 ^ 64)) h at, eq)
            (beat (ground arith) (ground arith) now (o, clear))

  -- With a live client, and an `error_out` that is null or a writable place other than the client,
  -- `chroma_destroy_client` returns success, drops the client, frees its block and changes nothing
  -- else but `*error_out`, to null; to destroy the same client again is a fault.
  pub destroy_client_once :
      (h : Heap) (s : State) (c : ChromaClient) (handle error_out : Ptr)
      → IsOut h error_out
      → handle ≢ null
      → error_out ≢ handle
      → h.cell handle ≡ some (cell_of rust (client c))
      → (h' : Heap) × (chroma_destroy_client C handle error_out h s
          ≡ return success h' (C.drop_client c s))
        × Cleared error_out (write h handle none) h'
        × ((t : State) → chroma_destroy_client C handle error_out h' t ≡ Outcome.fault)
  unfolding chroma_destroy_client
  destroy_client_once h s c handle error_out is_out ne apart at =
      let (h', eq, clear) = succeed_lem (C.drop_client c s) (IsOut-free handle apart is_out) in
      (
        h',
        rw (==_false handle null ne, take_rust_lem as_client handle h {c = client c} refl at) eq,
        clear,
        λ t.
            rw
              (
                ==_false handle null ne,
                take_rust-none as_client handle h' (freed_stays h handle apart clear),
              )
              refl,
      )
