-- ===== src/Rules.antt =====
-- crates/rsproxy-rules/src: the rule engine. A snapshot of rules is indexed once; a request is
-- resolved to the ordered actions of the rules that match it.
pub mod Text
pub mod Url
pub mod Bits
pub mod Action
pub mod Family
pub mod Classify
pub mod FamilySet
pub mod Model
pub mod Engine
pub mod Glob
pub mod GlobMatch
pub mod Literals
pub mod Match
pub mod Conditions
pub mod Evaluate
pub mod IndexKey
pub mod Index
pub mod Candidates
pub mod Resolve
mod Tests
