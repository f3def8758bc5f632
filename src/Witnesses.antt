-- ===== src/Witnesses.antt =====
-- The theorems at concrete inputs, and runs of the code on concrete bytes.
mod Whole
mod Parts
mod Numbers
mod Secure
mod Sessions
mod Channels
mod Lives
mod Contacts
mod Searches
