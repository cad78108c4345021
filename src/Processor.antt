-- ===== src/Processor.antt =====
-- services/processor: the fingerprint of an error (fingerprint.ts), the processing of an envelope
-- (processor.ts), one turn of the worker (worker.ts) and the status (operations.ts).
pub mod Fingerprint
pub mod Worker
pub mod Status
