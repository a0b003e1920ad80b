-- ===== src/System/Keys/Slices.antt =====
-- Keys that are made of the columns' bytes, one after the other.
