-- ===== src/Finder.antt =====
-- internal/finder: node identifiers, the routing table and the finder. The children define the
-- parts; the modules below them prove.
pub mod Node
pub mod Table
pub mod Memory
