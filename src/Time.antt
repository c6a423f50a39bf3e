-- ===== src/Time.antt =====
-- What pkg/controller/resource.go uses of Go's package `time`: the parse of a text in the layout
-- time.RFC3339, as Go 1.21 does it, and UnixMilli.
pub mod Civil
pub mod Calendar
pub mod Scan
pub mod Rfc3339
pub mod Printed
pub mod Sound
