-- ===== src/Fs/Tests/Dots.antt =====
-- The theorem on `..`, on the runs.
