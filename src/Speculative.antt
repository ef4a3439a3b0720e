-- ===== src/Speculative.antt =====
-- Speculative decoding: where drafts come from and how many tokens they have.
pub mod PromptLookup
pub mod FormDraft
pub mod Verify
pub mod Decoder
