-- ===== src/Resolve.antt =====
-- proto/resolve: the resolver.
pub mod Cache
mod Tests
