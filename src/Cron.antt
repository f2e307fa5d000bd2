-- ===== src/Cron.antt =====
-- daemon-go/service/cron.go: the parser of cron expressions and the search for the next minute.
pub mod Text
pub mod Field
pub mod Fire
pub mod Words
pub mod Normal
pub mod Steps
pub mod Values
pub mod Progress
pub mod Search
pub mod Tests
