-- ===== src/Http.antt =====
-- modules/http: the parts of the HTTP module that read and write texts.
pub mod Url
