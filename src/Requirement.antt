-- ===== src/Requirement.antt =====
-- Parts of `parse_requirement` of src/cpip/core/packaging.py whose short cuts claim to be exact.
pub mod Marker
pub mod Direct
