-- ===== src/Validators.antt =====
-- `ValidatorService` of src/vera_mmu/validators.py: declared rules (Validators/Rules), how each kind
-- assesses an evidence (Validators/Assess), and the operations (Validators/Register, Validators/Validate).
pub mod Rules
pub mod Assess
pub mod Register
pub mod Validate
pub mod Verdicts
