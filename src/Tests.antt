-- ===== src/Tests.antt =====
-- The theorems at concrete inputs, part by part.
mod RateLimitTests
mod LayoutTests
mod StorageTests
mod TextTests
mod EngineTests
mod ServiceTests
mod StreamTests
mod PagesTests
mod QueueTests
mod FeedTests
mod SlotsTests
mod WireTests
mod DatabaseTests
mod GatewayTests
mod ToolTests
