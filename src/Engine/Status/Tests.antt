-- ===== src/Engine/Status/Tests.antt =====
-- The health of sample engines, and a classification.
