-- ===== src/Feedback.antt =====
-- internal/feedback: the entries that users submit.
pub mod Store
pub mod Handlers
pub mod Submission
