-- ===== src/Lib.antt =====
-- The native core of ChromaDB.NET: the C functions through which a managed program uses Chroma.
--
-- Each exported function takes raw pointers, checks them, turns C strings and arrays into Rust
-- values, calls the frontend of Chroma once, and answers with an error code, an error record behind
-- `error_out` and a result behind another out pointer. The parts and their files:
--
--   Memory         blocks at addresses, each with its allocator (`Box` and `CString`, libc, or the
--                  caller), and the commands that the code's raw pointers amount to. A read of a
--                  block that is not there, of another kind or not yet written, and a free by the
--                  wrong allocator, are a fault: the code's undefined behaviour.
--   Memory/Structs the `repr(C)` structs of src/types/mod.rs, src/error/mod.rs, src/client/mod.rs
--                  and src/collection/types.rs
--   Utf8           `String::from_utf8_lossy`, which the conversion of a C string ends with
--   Utils          src/utils/mod.rs: strings and arrays between C and Rust, each function by name
--   Error          src/error/mod.rs: the record at `*error_out`
--   Types          src/types/mod.rs: the release of a query result
--   Ffi            the body of a handler: memory and service state are passed on, `set_error` with
--                  a `return` ends it with a code
--   Chroma         the crates that the library calls, as a parameter
--   Client         src/client/mod.rs: the client and its databases
--   Collection     src/collection/management.rs and types.rs in Management; operations.rs in
--                  Arguments (what handlers read), Writes, Reads and Results (what they answer with)
--   Tests          a small service, memory with arguments in it, and the theorems at that data
--
-- Every function of the source is the definition of its name; blocks that the source repeats from
-- handler to handler (an id array, the metadata, a filter) are one helper each, named for what it
-- reads. A handler is a `do` block whose lines are the steps of the source in their order. Loops
-- over an array are recursion on the number of elements that are left, so there is no fuel.
--
-- The parameter is the record `Chroma`: the types and functions of chroma_types, chroma_frontend,
-- serde_json and uuid, the Tokio runtime and the system clock. Nothing is assumed of it: the
-- theorems hold for every such record. A call of the frontend is a function of the state that
-- it keeps; handlers run one at a time. The printed form of an error is a text of the parameter.
--
-- An address is a number with 0 as null. A pointer names a whole block, and an index is a position in
-- it: address arithmetic, alignment and the size of a block are not modelled. `f32` is its bit
-- pattern. Rust's allocator does not fail (it would end the process); `malloc` fails where the
-- heap says so. `size_t` and `c_uint` values are passed on as they are; `c_int` codes and the
-- 64 bits of the heartbeat are written out.
--
-- Not modelled: the managed wrapper, its tests and example (C#), the header for C, the build files,
-- and threads.
pub mod Prelude
pub mod Utf8
pub mod Memory
pub mod Utils
pub mod Error
pub mod Types
pub mod Ffi
pub mod Chroma
pub mod Client
pub mod Collection
pub mod Tests
