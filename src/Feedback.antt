-- ===== src/Feedback.antt =====
-- app/feedback: the review of agent answers and the repair of wiki pages.
pub mod Service
pub mod Queue
pub mod Evaluator
pub mod WikiTools
pub mod Compiler
