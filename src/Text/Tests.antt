-- ===== src/Text/Tests.antt =====
-- The theorems on splitting and trimming at small texts.
