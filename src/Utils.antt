-- ===== src/Utils.antt =====
-- lib/Lightnet/Utils: what the services of the controller share.
pub mod EntryId
