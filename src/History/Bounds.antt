-- ===== src/History/Bounds.antt =====

