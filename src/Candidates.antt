-- ===== src/Candidates.antt =====
-- The choice of candidates: src/cpip/index/candidate_evaluators.py and
-- src/cpip/index/candidate_filters.py over the records of src/cpip/index/source_models.py.
pub mod Models
pub mod Hashes
pub mod Applicable
pub mod Evaluate
pub mod Best
