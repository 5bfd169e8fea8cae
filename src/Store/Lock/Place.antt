-- ===== src/Store/Lock/Place.antt =====
-- What the end of a wait in Lock and the next call with its token leave of the line.
