-- ===== src/Chat/Clients/Arrival.antt =====
-- The loop that serves a receiving client together with the loop of that client.
