-- ===== src/Collection.antt =====
-- src/collection: the handlers of collections and of the documents in them.
pub mod Management
pub mod Arguments
pub mod Results
pub mod Writes
pub mod Reads
