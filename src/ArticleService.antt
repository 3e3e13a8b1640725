-- ===== src/ArticleService.antt =====
-- services/article-service: its in-memory store and the ingestion of discovered articles
-- (internal/usecase/ingest.go), and the loop that consumes messages (internal/runtime).
pub mod Text
pub mod Store
pub mod Ingest
pub mod Consumer
mod Tests
