-- ===== src/Contacts.antt =====
-- server/bbz_core/domain/contacts: the numbers of contacts.
pub mod PhoneNumbers
