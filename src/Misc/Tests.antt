-- ===== src/Misc/Tests.antt =====
-- Examples of the helpers.
