-- ===== src/Wiki.antt =====
-- app/wiki: the pages of the wiki.
pub mod Frontmatter
pub mod Graph
