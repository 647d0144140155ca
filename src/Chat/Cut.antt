-- ===== src/Chat/Cut.antt =====
-- What `receive` makes of a message that is too long for one read.
