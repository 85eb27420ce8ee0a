-- ===== src/Api.antt =====
-- mediamtx/internal/api: the pages that lists are answered in.
pub mod Paginate
