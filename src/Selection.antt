-- ===== src/Selection.antt =====
-- src/tuntu/models.py, rules.py, selector.py, pipeline.py and normalization.py: from what the sources
-- find to the candidate that is chosen.
pub mod Evidence
pub mod Content
pub mod Candidates
pub mod Rules
pub mod Ranking
pub mod Pipeline
