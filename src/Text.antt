-- ===== src/Text.antt =====
-- Texts whose characters the code inspects: lists of code points, with the string methods of
-- JavaScript that the services call. The case mappings are exact on ASCII, which all the names
-- of resources are; other code points are left as they are.
mod Laws
mod Defs
pub use Laws.*
unfoldable pub use Defs.*
