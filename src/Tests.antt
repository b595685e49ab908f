-- ===== src/Tests.antt =====
-- The theorems at concrete versions, clauses, options and links.
mod Matcher
mod Versions
mod Clauses
mod Sets
mod Texts
mod Choice
mod Wheels
mod Urls
mod Files
mod Best
mod Markers
mod Hashes
mod Transaction
