-- ===== src/Chain.antt =====
-- The chain from a recorded evidence to a proven knowledge: src/vera_mmu/evidence.py,
-- evidence_classes.py, admission.py and proofs.py. An evidence is recorded with the hash of its
-- content, a decision admits or rejects it, and a promotion founds a proof on it.
pub mod Platform
pub mod Classes
pub mod Record
pub mod Decide
pub mod Promote
pub mod Backed
pub mod Refusals
pub mod Final
