-- ===== src/Access.antt =====
-- Access events: how apps/shortlink_server describes them, and how apps/shortlink_event_consumer
-- takes them from Kafka into the statistics.
pub mod Event
pub mod Statistics
pub mod Writer
pub mod Consumer
