-- ===== src/Forwarder/Joins.antt =====
-- Which threads are waited for when forwarder_run returns.
use ne.Route
